-- ===== src/Memory/Alloc/Maps.antt =====
-- alloc_page maps its page: afterwards the virtual address translates to the physical one.
use chud_os.Base.{
  ℕ, ◌+◌, ◌*◌, ◌/◌, ◌%◌, ◌^◌, ◌≤◌, ◌<◌, ◌≡◌, refl, sym, ap, ◌≢◌, ◌∙◌, arith, bit_and, Bool, true,
  false, ltb, ◌==◌, ◌&&◌, update_self, update_ne, List, [], ◌∷◌, length,
}
use chud_os.Base.Words.{shl64}
use chud_os.Base.Bits.{bit_or_multiple, bit_or_disjoint_right}
use chud_os.Memory.Address.{extract_page_entries}
use chud_os.Memory.Address.RoundTrip.{extract-InRange}
use chud_os.Memory.Frames.{Memory, mem_get_bit, virtual_memory_barrier}
use chud_os.Memory.Frames.Search.{Used}
use chud_os.Memory.Walk.{
  table_indices, entry_address, slot, write_word, phys_addr, calculate_page_physical_entry_address,
}
use chud_os.Memory.Walk.Entry.{entry_address_lem}
use chud_os.Memory.Walk.Strata.{IsStratified, Room, slots_apart}
use chud_os.Memory.Walk.Route.{Leads, IsRoute, AllBelow, Route-level, Leads-level}
use chud_os.Memory.Walk.Calculate.{
  TableOf, root_frame, indices_below, calculate-Calculated, phys_addr-TableOf,
}
use chud_os.Memory.Alloc.{
  PageDetails, mapped, null, page_table_entry, count_reference, count_page, alloc_page, bool_to_ℕ,
}

-- A write to an entry of a page table, at level 1, leaves the tables above as they are.
module _ {level : ℕ → ℕ} {m : Memory} (s : IsStratified level m) (g j v : ℕ) (leaf : level g ≡ 1)
    (hj : j < 512) where
  abbrev written : Memory
  written = write_word (slot (0x1000 * g) j) v m

  word_above :
      (f i : ℕ)
      → 2 ≤ level f
      → i < 512
      → written.word (slot (0x1000 * f) i) ≡ m.word (slot (0x1000 * f) i)
  word_above f i d hi =
      update_ne m.word (slot (0x1000 * g) j) v (slot (0x1000 * f) i)
        (slots_apart g f j i hj hi (apart f d))
    where
      apart : (f : ℕ) → 2 ≤ level f → g ≢ f
      apart f d e = absurd (omega (arith, ap level e))

  write-IsStratified : IsStratified level written
  unfolding mem_get_bit
  write-IsStratified = record {
    small = s.small;
    root_aligned = s.root_aligned;
    root_level = s.root_level;
    table_used = s.table_used;
    table_in = s.table_in;
    child_aligned = λ f i d hi p.
        rw (word_above f i d hi) (s.child_aligned f i d hi (rw (word_above f i d hi) at p));
    child_level = λ f i d hi p.
        rw (word_above f i d hi) (s.child_level f i d hi (rw (word_above f i d hi) at p));
  }

  write-IsRoute :
      (is : List ℕ) (f h : ℕ)
      → AllBelow is
      → level f ≡ length is + 1
      → IsRoute m is f h
      → IsRoute written is f h
  write-IsRoute [] f h b d w = w
  write-IsRoute (i ∷ is) f h (hi, b) d (k, l, w) =
      let same = word_above f i (omega arith) hi in
      let step : Leads written f i k = record {
        present = rw same l.present;
        target = rw same l.target;
      } in
      (k, step, write-IsRoute is k h b (omega (arith, Leads-level s (omega arith) hi l)) w)

-- Counting a reference keeps every used frame marked used.
count-Used : (page : PageDetails) (m : Memory) (f : ℕ) → Used m f → Used (count_page page m) f
unfolding count_page count_reference mem_get_bit
count-Used page m f u = ground arith

count-IsStratified :
    {level : ℕ → ℕ} {m : Memory} (page : PageDetails)
    → IsStratified level m
    → IsStratified level (count_page page m)
unfolding count_page
count-IsStratified {m} page s = record {
  small = s.small;
  root_aligned = s.root_aligned;
  root_level = s.root_level;
  table_used = λ f h. count-Used page m f (s.table_used f h);
  table_in = s.table_in;
  child_aligned = s.child_aligned;
  child_level = s.child_level;
}

bit_63 : (b : Bool) → shl64 (bool_to_ℕ b) 63 ≡ bool_to_ℕ b * 2 ^ 63
bit_63 true = refl
bit_63 false = refl

-- The entry that alloc_page writes holds the page's physical address.
entry_address-entry :
    (page : PageDetails)
    → page.physical_address % 0x1000 ≡ 0
    → page.physical_address < 2 ^ 47
    → page.flags < 0x1000
    → entry_address (page_table_entry page) ≡ page.physical_address
unfolding page_table_entry
entry_address-entry page aligned low small =
    let fields =
      bit_or_multiple 12 (page.physical_address / 0x1000) page.physical_address page.flags
        (omega arith) small in
    let xd =
      bit_or_disjoint_right 63 (bool_to_ℕ page.execute_disable) (page.physical_address + page.flags)
        (omega arith) in
    rw (fields, bit_63 page.execute_disable, xd)
      (omega (
        arith,
        entry_address_lem
            (page.physical_address + page.flags + bool_to_ℕ page.execute_disable * 2 ^ 63),
      ))

-- The conditions under which alloc_page maps a page.
pub record MayMap (page : PageDetails) (m : Memory) : Type 0 where
  pub in_memory : page.physical_address < m.total_mem
  pub clean : bit_and (m.phys_frames (page.physical_address / 0x1000)).flags 0b10 ≡ 0
  -- A frame of the kernel is mapped only into the kernel's half.
  pub owner :
      ((bit_and (m.phys_frames (page.physical_address / 0x1000)).flags 0b100 == 0b100)
        && ltb page.virtual_address virtual_memory_barrier)
      ≡ false

-- A whole page at each end, and flags that stay clear of the address.
pub record IsPage (page : PageDetails) : Type 0 where
  pub physical_aligned : page.physical_address % 0x1000 ≡ 0
  pub virtual_aligned : page.virtual_address % 0x1000 ≡ 0
  pub virtual_end : page.virtual_address + 0x1000 ≤ 2 ^ 64
  pub flags_small : page.flags < 0x1000

-- The page's entry stands in its page table, and the tables are in order.
pub record Installed (page : PageDetails) (level : ℕ → ℕ) (m : Memory) : Type 0 where
  pub stratified : IsStratified level m
  pub table : ℕ
  pub route : TableOf m (extract_page_entries page.virtual_address) table
  pub holds :
      entry_address
        (m.word (slot (0x1000 * table) (extract_page_entries page.virtual_address).pt_entry))
      ≡ page.physical_address

-- Every address of the page translates, and the translation changes nothing.
abbrev pub Translates : PageDetails → Memory → Type 0
Translates page m =
    (d : ℕ) → d < 0x1000 → phys_addr (page.virtual_address + d) m ≡ (page.physical_address + d, m)

pub Installed-Translates :
    {page : PageDetails} {level : ℕ → ℕ} {m : Memory}
    → IsPage page
    → Installed page level m
    → Translates page m
Installed-Translates {page} {m} ok inst d hd =
    phys_addr-TableOf page.virtual_address d inst.table (page.physical_address / 0x1000)
      inst.stratified ok.virtual_aligned hd (omega (arith, ok.virtual_end)) inst.route
      (inst.holds ∙ whole)
    ∙ ap (λ (t : ℕ). (t + d, m)) (sym whole)
  where
    whole : page.physical_address ≡ 0x1000 * (page.physical_address / 0x1000)
    whole = omega (arith, ok.physical_aligned)

alloc_page-mapped :
    (page : PageDetails) (m walked : Memory) (pointer : ℕ)
    → MayMap page m
    → calculate_page_physical_entry_address
        (extract_page_entries page.virtual_address)
        (count_page page m)
      ≡ (pointer, walked)
    → pointer < 2 ^ 47
    → alloc_page page m
      ≡ (mapped page.virtual_address, write_word pointer (page_table_entry page) walked)
unfolding alloc_page
alloc_page-mapped page m walked pointer may e low = rw e (ground (arith, may))

-- A frame of the kernel is not mapped below the kernel's half.
pub alloc_page-refused :
    (page : PageDetails) (m : Memory)
    → page.physical_address < m.total_mem
    → page.virtual_address < virtual_memory_barrier
    → (m.phys_frames (page.physical_address / 0x1000)).flags ≡ 0b101
    → alloc_page page m ≡ (null, m)
unfolding alloc_page
alloc_page-refused page m inside low kernel = rw kernel (ground arith)

-- Writing the page's entry into its page table installs it.
written-Installed :
    {level : ℕ → ℕ} (page : PageDetails) (m : Memory) (g : ℕ)
    → IsStratified level m
    → IsPage page
    → page.physical_address < 2 ^ 47
    → level g ≡ 1
    → TableOf m (extract_page_entries page.virtual_address) g
    → Installed page level (
        write_word
          (slot (0x1000 * g) (extract_page_entries page.virtual_address).pt_entry)
          (page_table_entry page)
          m)
written-Installed page m g s ok low leaf w =
    let e = extract_page_entries page.virtual_address in
    let r = extract-InRange page.virtual_address in
    let entry = page_table_entry page in
    record {
      stratified = write-IsStratified s g e.pt_entry entry leaf r.pt;
      table = g;
      route =
          write-IsRoute s g e.pt_entry entry leaf r.pt (table_indices e) (root_frame m) g
            (indices_below e r) s.root_level w;
      holds =
          ap (λ (t : ℕ). entry_address t) (update_self m.word (slot (0x1000 * g) e.pt_entry) entry)
          ∙ entry_address-entry page ok.physical_aligned low ok.flags_small;
    }

pub slot_low :
    {level : ℕ → ℕ} {m : Memory} (g i : ℕ)
    → IsStratified level m
    → level g ≢ 0
    → i < 512
    → slot (0x1000 * g) i < 2 ^ 47
slot_low g i s h hi = omega (arith, s.small, s.table_in g h)

pub alloc_page-Installed :
    (level : ℕ → ℕ) (m : Memory) (page : PageDetails)
    → IsStratified level m
    → IsPage page
    → MayMap page m
    → Room 3 (count_page page m)
    → (level' : ℕ → ℕ) × (m' : Memory) × (alloc_page page m ≡ (mapped page.virtual_address, m'))
      × Installed page level' m'
alloc_page-Installed level m page s ok may room =
    let e = extract_page_entries page.virtual_address in
    let r = extract-InRange page.virtual_address in
    let counted = count_page page m in
    let out = calculate_page_physical_entry_address e counted in
    let (lb, g, x, w, end) =
      calculate-Calculated level counted e (count-IsStratified page s) r room in
    let leaf : lb g ≡ 1 =
      Route-level (table_indices e) x.stratified (indices_below e r) x.stratified.root_level w in
    let pointer = slot (0x1000 * g) e.pt_entry in
    let low = slot_low g e.pt_entry x.stratified (omega (arith, leaf)) r.pt in
    let done = alloc_page-mapped page m out.1 pointer may (λ i. (end i, out.1)) low in
    let small : page.physical_address < 2 ^ 47 = omega (arith, s.small, may.in_memory) in
    (
      lb,
      write_word pointer (page_table_entry page) out.1,
      done,
      written-Installed page out.1 g x.stratified ok small leaf w,
    )

-- On stratified tables, with three frames to spare for new tables, alloc_page maps a page that it
-- may map: it returns the page's virtual address, the tables stay stratified, and phys_addr of
-- every address of the page is the address at the same offset of the physical page, found without
-- another change of memory.
pub alloc_page-Translates :
    (level : ℕ → ℕ) (m : Memory) (page : PageDetails)
    → IsStratified level m
    → IsPage page
    → MayMap page m
    → Room 3 (count_page page m)
    → (level' : ℕ → ℕ) × (m' : Memory) × (alloc_page page m ≡ (mapped page.virtual_address, m'))
      × IsStratified level' m'
      × Translates page m'
alloc_page-Translates level m page s ok may room =
    let (level', m', done, inst) = alloc_page-Installed level m page s ok may room in
    (level', m', done, inst.stratified, Installed-Translates ok inst)
