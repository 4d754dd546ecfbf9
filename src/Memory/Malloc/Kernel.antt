-- ===== src/Memory/Malloc/Kernel.antt =====
-- malloc for a task whose next page lies in the kernel's half: Create_User_Memory's use of it.
use chud_os.Base.{
  ℕ, ◌+◌, ◌*◌, ◌/◌, ◌%◌, ◌^◌, ◌≤◌, ◌≡◌, sym, ap, ◌∙◌, arith, bit_and, update_self, List, [], ◌∷◌,
}
use mathlib.Core.Path.{subst}
use chud_os.Base.Words.{add64}
use chud_os.Memory.Frames.{
  PhysicalFrame, Memory, mem_get_bit, virtual_memory_barrier, set_flags, find_next_free_physical,
}
use chud_os.Memory.Frames.Search.{IsLowestFree, Used, find-IsLowestFree}
use chud_os.Memory.Walk.Strata.{IsStratified, Room}
use chud_os.Memory.Address.{extract_page_entries}
use chud_os.Memory.Walk.{table_indices}
use chud_os.Memory.Walk.Route.{Leads, IsRoute}
use chud_os.Memory.Walk.Calculate.{root_frame}
use chud_os.Memory.Alloc.{PageDetails, mapped, count_reference, count_page, alloc_page}
use chud_os.Memory.Alloc.Maps.{
  IsPage, MayMap, Installed, Translates, Installed-Translates, alloc_page-Installed,
}
use chud_os.Memory.Malloc.{TaskMemory, next_page_address, malloc_page, malloc_end, malloc}

-- Marking a frame as the kernel's.
flags-Used : (n f : ℕ) (m : Memory) → Used m f → Used (set_flags n 0b101 m) f
unfolding mem_get_bit
flags-Used n f m u = ground arith

flags-IsStratified :
    {level : ℕ → ℕ} {m : Memory} (n : ℕ)
    → IsStratified level m
    → IsStratified level (set_flags n 0b101 m)
flags-IsStratified {m} n s = record {
  small = s.small;
  root_aligned = s.root_aligned;
  root_level = s.root_level;
  table_used = λ f h. flags-Used n f m (s.table_used f h);
  table_in = s.table_in;
  child_aligned = s.child_aligned;
  child_level = s.child_level;
}

-- A page of the kernel's half counts no reference.
flags-IsRoute :
    (n : ℕ) (m : Memory) (is : List ℕ) (f h : ℕ)
    → IsRoute m is f h
    → IsRoute (set_flags n 0b101 m) is f h
flags-IsRoute n m [] f h w = w
flags-IsRoute n m (i ∷ is) f h (k, l, w) =
    let step : Leads (set_flags n 0b101 m) f i k = record {
      present = l.present;
      target = l.target;
    } in
    (k, step, flags-IsRoute n m is k h w)

flags-Installed :
    {level : ℕ → ℕ} {m : Memory} (page : PageDetails) (n : ℕ)
    → Installed page level m
    → Installed page level (set_flags n 0b101 m)
flags-Installed {m} page n inst = record {
  stratified = flags-IsStratified n inst.stratified;
  table = inst.table;
  route =
      flags-IsRoute n m (table_indices (extract_page_entries page.virtual_address)) (root_frame m)
        inst.table inst.route;
  holds = inst.holds;
}

module _ (page : PageDetails) (m : Memory)
    (high : virtual_memory_barrier ≤ page.virtual_address) where
  uncounted : (f : ℕ) → (count_page page m).phys_frames f ≡ m.phys_frames f
  unfolding count_page count_reference
  uncounted f = ground arith

  count_page-kernel : count_page page m ≡ m
  unfolding count_page
  count_page-kernel = λ i. record m { phys_frames = λ f. uncounted f i }

-- On stratified tables, with a free frame and three more for tables: for a task whose next page lies in
-- the kernel's half, malloc returns the address of that page and counts it, the tables stay
-- stratified, and every address of the page translates to the lowest free frame.
pub malloc-Translates :
    (level : ℕ → ℕ) (t : TaskMemory) (m : Memory) (n : ℕ)
    → IsStratified level m
    → IsLowestFree m n
    → Room 3 (set_flags n 0b101 m)
    → virtual_memory_barrier ≤ next_page_address t
    → next_page_address t % 0x1000 ≡ 0
    → next_page_address t + 0x1000 ≤ 2 ^ 64
    → (level' : ℕ → ℕ) × (m' : Memory) × (malloc t m
        ≡ (mapped (next_page_address t), record t { page_count = add64 t.page_count 1 }, m'))
      × IsStratified level' m'
      × Translates (malloc_page t (0x1000 * n)) m'
unfolding malloc malloc_end mem_get_bit
malloc-Translates level t m n s free room high aligned end =
    let page = malloc_page t (0x1000 * n) in
    let marked = set_flags n 0b101 m in
    let found : find_next_free_physical m ≡ 0x1000 * n =
      find-IsLowestFree m n (omega (arith, s.small)) free in
    let whole : 0x1000 * n / 0x1000 ≡ n = omega arith in
    let kernel : (marked.phys_frames (0x1000 * n / 0x1000)).flags ≡ 0b101 =
      ap (λ (f : ℕ). (marked.phys_frames f).flags) whole
      ∙ ap (λ (f : PhysicalFrame). f.flags) (update_self m.phys_frames n _) in
    let ok : IsPage page = record {
      physical_aligned = omega arith;
      virtual_aligned = aligned;
      virtual_end = end;
      flags_small = omega arith;
    } in
    let may : MayMap page marked = record {
      in_memory = free.in_memory;
      clean = ap (λ (f : ℕ). bit_and f 0b10) kernel;
      owner = ground arith;
    } in
    let room' = subst (Room 3) (sym (count_page-kernel page marked high)) room in
    let (level', m', done, inst) =
      alloc_page-Installed level marked page (flags-IsStratified n s) ok may room' in
    let finish = record t { page_count = add64 t.page_count 1 } in
    let final = flags-Installed page n inst in
    (
      level',
      set_flags n 0b101 m',
      ap
            (λ (free : ℕ).
              malloc_end finish (free / 0x1000)
                (alloc_page (malloc_page t free) (set_flags (free / 0x1000) 0b101 m)))
            found
          ∙ ap (λ (f : ℕ). malloc_end finish f (alloc_page page (set_flags f 0b101 m))) whole
          ∙ ap (malloc_end finish n) done,
      final.stratified,
      Installed-Translates ok final,
    )
