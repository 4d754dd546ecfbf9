-- ===== src/Memory/Malloc/User.antt =====
-- malloc for a task whose pages lie below the kernel's half.
use chud_os.Base.{ℕ, ◌+◌, ◌/◌, ◌^◌, ◌<◌, ◌≤◌, ◌≡◌, ◌≢◌, refl, ap, ◌∙◌, arith, inl, inr, update_self}
use chud_os.Base.Words.{add64, sub64}
use chud_os.Memory.Frames.{
  PhysicalFrame, Memory, virtual_memory_barrier, set_flags, find_next_free_physical,
}
use chud_os.Memory.Frames.Search.{find_next_free_physical-Found}
use chud_os.Memory.Alloc.{null}
use chud_os.Memory.Alloc.Maps.{alloc_page-refused}
use chud_os.Memory.Malloc.{TaskMemory, next_page_address, malloc_page, malloc_end, malloc}

find-below :
    (m : Memory)
    → 0 < m.total_mem
    → m.total_mem + 0x1000 ≤ 2 ^ 64
    → find_next_free_physical m < m.total_mem
find-below m some_memory small = elim (find_next_free_physical-Found m small) [
  | inl (n, e, l) ↦ omega (arith, l.in_memory)
  | inr (e, full) ↦ omega arith
]

-- Memory in which frame `n` has no flags and all else is as before.
pub record Cleared (n : ℕ) (m m' : Memory) : Type 0 where
  pub flags : (m'.phys_frames n).flags ≡ 0
  pub refcount : (m'.phys_frames n).refcount ≡ (m.phys_frames n).refcount
  pub others : (f : ℕ) → n ≢ f → m'.phys_frames f ≡ m.phys_frames f
  pub word : m'.word ≡ m.word
  pub total_mem : m'.total_mem ≡ m.total_mem
  pub pml4_physical : m'.pml4_physical ≡ m.pml4_physical

-- The frame that malloc took and gave back.
given_back : ℕ → Memory → Memory
given_back n m = set_flags n 0 (set_flags n 0b101 (set_flags n 0b101 m))

given_back-Cleared : (n : ℕ) (m : Memory) → Cleared n m (given_back n m)
unfolding given_back
given_back-Cleared n m = record {
  flags = ground arith;
  refcount = ground arith;
  others = λ f ne. ground arith;
  word = refl;
  total_mem = refl;
  pml4_physical = refl;
}

-- For a task whose next page is below the kernel's half, on a machine with memory, malloc maps
-- nothing: it returns NULL, with the task as it was and memory as it was but for the frame that the
-- search returned, which has no flags left, even where it is a used frame because all frames are.
pub malloc-refuses :
    (t : TaskMemory) (m : Memory)
    → t.page_count < 2 ^ 64
    → next_page_address t < virtual_memory_barrier
    → 0 < m.total_mem
    → m.total_mem + 0x1000 ≤ 2 ^ 64
    → (m' : Memory) × (malloc t m ≡ (null, t, m'))
      × Cleared (find_next_free_physical m / 0x1000) m m'
unfolding malloc malloc_end given_back
malloc-refuses t m pages low some_memory small =
    let free = find_next_free_physical m in
    let refused =
      alloc_page-refused (malloc_page t free) (set_flags (free / 0x1000) 0b101 m)
        (find-below m some_memory small) low
        (ap (λ (f : PhysicalFrame). f.flags) (update_self m.phys_frames (free / 0x1000) _)) in
    let same : sub64 (add64 t.page_count 1) 1 ≡ t.page_count = omega arith in
    let m' = given_back (free / 0x1000) m in
    (
      m',
      ap (malloc_end (record t { page_count = add64 t.page_count 1 }) (free / 0x1000)) refused
          ∙ ap (λ (n : ℕ). (null, record t { page_count = n }, m')) same,
      given_back-Cleared (free / 0x1000) m,
    )
