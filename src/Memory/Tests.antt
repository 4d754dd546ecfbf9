-- ===== src/Memory/Tests.antt =====
-- Memory.c at concrete inputs: eight frames of memory, of which frame 0 holds an empty PML4.
use chud_os.Base.{◌*◌, ℕ, zero, suc, ◌<◌, ◌≡◌, refl, true, arith, inr, ◌==◌, if◌then◌else◌}
use mathlib.Core.Bool.{false≢true}
use native.Mathlib.Decide.{ℕ_discrete}
use chud_os.Memory.Address.{PageEntries, extract_page_entries, calculate_page_address}
use chud_os.Memory.Address.RoundTrip.{calculate-extract}
use chud_os.Memory.Frames.{Memory, mem_get_bit, set_flags, find_next_free_physical}
use chud_os.Memory.Frames.Search.{Used, IsLowestFree, Found, find_next_free_physical-Found}
use chud_os.Memory.Walk.{slot, ensure_entry, calculate_page_physical_entry_address}
use chud_os.Memory.Walk.Extend.{Ensured, ensure_entry-Ensured}
use chud_os.Memory.Walk.Calculate.{Calculated, calculate-Calculated}
use chud_os.Memory.Walk.Strata.{IsStratified, Room}
use chud_os.Base.Words.{add64}
use chud_os.Base.{List, [], ◌∷◌}
use chud_os.Memory.Free.Ranges.{RangeDescriptor}
use chud_os.Memory.Malloc.{TaskMemory, next_page_address, malloc_page, malloc}
use chud_os.Memory.Malloc.Kernel.{malloc-Translates}
use chud_os.Memory.Alloc.{PageDetails, mapped, alloc_page, count_page, count_reference}
use chud_os.Memory.Alloc.Maps.{MayMap, IsPage, Translates, alloc_page-Translates}

abbrev pub small_memory : Memory
small_memory = record {
  phys_frames = λ f. record { refcount = 0; flags = if f == 0 then 5 else 0 };
  total_mem = 0x8000;
  physical_pages_used = 0;
  pml4_physical = 0;
  word = λ p. 0;
}

abbrev pub small_level : ℕ → ℕ
small_level f = if f == 0 then 4 else 0

pub small_memory-IsStratified : IsStratified small_level small_memory
unfolding mem_get_bit
small_memory-IsStratified = record {
  small = omega arith;
  root_aligned = refl;
  root_level = refl;
  table_used = λ f h. elim (ℕ_discrete f 0) [ yes e ↦ rw e refl | no ne ↦ absurd (ground arith) ];
  table_in =
      λ f h. elim (ℕ_discrete f 0) [ yes e ↦ rw e (omega arith) | no ne ↦ absurd (ground arith) ];
  child_aligned = λ f i d hi p. refl;
  child_level = λ f i d hi p. absurd (false≢true p);
}

abbrev pub kernel_page : PageDetails
kernel_page = record {
  flags = 3;
  execute_disable = true;
  virtual_address = 0xffff_8000_0010_0000;
  physical_address = 0x5000;
}

Used-below_one : (m : Memory) → Used m 0 → (j : ℕ) → j < 1 → Used m j
Used-below_one m u zero h = u
Used-below_one m u (suc j) h = absurd (omega arith)

Used-below_suc :
    (m : Memory) (n : ℕ) → ((j : ℕ) → j < n → Used m j) → Used m n → (j : ℕ) → j < suc n → Used m j
Used-below_suc m n below u j h = elim (ℕ_discrete j n) [
  | yes e ↦ rw e u
  | no ne ↦ below j (omega arith)
]

abbrev counted : Memory
counted = count_page kernel_page small_memory

-- Frames 1 to 3 are taken one after the other.
abbrev taken : Memory → ℕ → Memory
taken m zero = m
taken m (suc n) = set_flags (suc n) 5 (taken m n)

below_two : (m : Memory) → Used m 0 → Used m 1 → (j : ℕ) → j < 2 → Used m j
below_two m u v = Used-below_suc m 1 (Used-below_one m u) v

below_three : (m : Memory) → Used m 0 → Used m 1 → Used m 2 → (j : ℕ) → j < 3 → Used m j
below_three m u v w = Used-below_suc m 2 (below_two m u v) w

small_memory-Room : Room 3 small_memory
unfolding mem_get_bit
small_memory-Room =
    let m = small_memory in
    let one : IsLowestFree m 1 = record {
      in_memory = omega arith;
      free = refl;
      lowest = Used-below_one m refl;
    } in
    let two : IsLowestFree (taken m 1) 2 = record {
      in_memory = omega arith;
      free = refl;
      lowest = below_two (taken m 1) refl refl;
    } in
    let three : IsLowestFree (taken m 2) 3 = record {
      in_memory = omega arith;
      free = refl;
      lowest = below_three (taken m 2) refl refl refl;
    } in
    (1, one, (2, two, (3, three, tt)))

counted-Room : Room 3 counted
unfolding mem_get_bit count_page count_reference
counted-Room =
    let m = counted in
    let one : IsLowestFree m 1 = record {
      in_memory = omega arith;
      free = refl;
      lowest = Used-below_one m refl;
    } in
    let two : IsLowestFree (taken m 1) 2 = record {
      in_memory = omega arith;
      free = refl;
      lowest = below_two (taken m 1) refl refl;
    } in
    let three : IsLowestFree (taken m 2) 3 = record {
      in_memory = omega arith;
      free = refl;
      lowest = below_three (taken m 2) refl refl refl;
    } in
    (1, one, (2, two, (3, three, tt)))

kernel_page-IsPage : IsPage kernel_page
kernel_page-IsPage = record {
  physical_aligned = refl;
  virtual_aligned = refl;
  virtual_end = omega arith;
  flags_small = omega arith;
}

kernel_page-MayMap : MayMap kernel_page small_memory
kernel_page-MayMap = record { in_memory = omega arith; clean = refl; owner = refl }

alloc_page-Translates_example :
    (level' : ℕ → ℕ) × (m' : Memory) × (alloc_page kernel_page small_memory
      ≡ (mapped 0xffff_8000_0010_0000, m'))
    × IsStratified level' m'
    × Translates kernel_page m'
alloc_page-Translates_example =
    alloc_page-Translates small_level small_memory kernel_page small_memory-IsStratified
      kernel_page-IsPage kernel_page-MayMap counted-Room

calculate-extract_example :
    calculate_page_address (extract_page_entries 0xffff_8123_4567_89ab) ≡ 0xffff_8123_4567_89ab
calculate-extract_example = calculate-extract 0xffff_8123_4567_89ab (inr (omega arith, omega arith))

abbrev upper_entries : PageEntries
upper_entries = record {
  pml4_entry = 256;
  pdpt_entry = 511;
  pd_entry = 3;
  pt_entry = 4;
  page_offset = 5;
}

find_next_free_physical-Found_example : Found small_memory (find_next_free_physical small_memory)
find_next_free_physical-Found_example = find_next_free_physical-Found small_memory (omega arith)

ensure_entry-Ensured_example :
    Ensured small_level small_memory 0 256 2 (ensure_entry (slot 0 256) 3 small_memory)
ensure_entry-Ensured_example =
    ensure_entry-Ensured small_level small_memory 0 256 3 2 small_memory-IsStratified (omega arith)
      (omega arith) refl (omega arith) small_memory-Room

calculate-Calculated_example :
    Calculated small_level small_memory upper_entries
      (calculate_page_physical_entry_address upper_entries small_memory)
calculate-Calculated_example =
    calculate-Calculated small_level small_memory upper_entries small_memory-IsStratified
      (record {
        pml4 = omega arith;
        pdpt = omega arith;
        pd = omega arith;
        pt = omega arith;
        offset = omega arith;
      })
      small_memory-Room

abbrev kernel_task : TaskMemory
kernel_task = record {
  base_virtual_address = 0xffff_8000_0010_0000;
  page_count = 2;
  stack_base_virtual_address = 0;
  stack_page_count = 0;
  kernel_stack_base_virtual_address = 0;
  kernel_stack_page_count = 0;
  heap_virtual_address = 0;
}

abbrev user_task : TaskMemory
user_task = record kernel_task { base_virtual_address = 0x40_0000 }

marked-Room : Room 3 (taken small_memory 1)
unfolding mem_get_bit
marked-Room =
    let m = small_memory in
    let two : IsLowestFree (taken m 1) 2 = record {
      in_memory = omega arith;
      free = refl;
      lowest = below_two (taken m 1) refl refl;
    } in
    let three : IsLowestFree (taken m 2) 3 = record {
      in_memory = omega arith;
      free = refl;
      lowest = below_three (taken m 2) refl refl refl;
    } in
    let four : IsLowestFree (taken m 3) 4 = record {
      in_memory = omega arith;
      free = refl;
      lowest = Used-below_suc (taken m 3) 3 (below_three (taken m 3) refl refl refl) refl;
    } in
    (2, two, (3, three, (4, four, tt)))

first_free : IsLowestFree small_memory 1
unfolding mem_get_bit
first_free = record {
  in_memory = omega arith;
  free = refl;
  lowest = Used-below_one small_memory refl;
}

malloc-Translates_example :
    (level' : ℕ → ℕ) × (m' : Memory) × (malloc kernel_task small_memory
      ≡ (mapped (next_page_address kernel_task), record kernel_task { page_count = add64 2 1 }, m'))
    × IsStratified level' m'
    × Translates (malloc_page kernel_task (0x1000 * 1)) m'
malloc-Translates_example =
    malloc-Translates small_level kernel_task small_memory 1 small_memory-IsStratified first_free
      marked-Room (omega arith) refl (omega arith)

abbrev ranges : List RangeDescriptor
ranges =
    record { base_address = 0; range_length = 0x8000; range_type = 1; extension = 0 }
    ∷ record { base_address = 0x8000; range_length = 0x1000; range_type = 2; extension = 0 }
    ∷ []
