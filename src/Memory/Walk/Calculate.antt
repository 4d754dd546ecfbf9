-- ===== src/Memory/Walk/Calculate.antt =====
-- CalculatePagePhysicalEntryAddress and phys_addr over stratified tables.
use chud_os.Base.{ℕ, ◌+◌, ◌*◌, ◌/◌, ◌%◌, ◌^◌, ◌<◌, ◌≡◌, sym, ap, ◌∙◌, arith, bit_and}
use mathlib.Core.Path.{subst}
use chud_os.Base.Bits.{bit_and-field, bit_and-low_mask, bit_or_multiple}
use chud_os.Memory.Address.{PageEntries, extract_page_entries}
use chud_os.Memory.Address.RoundTrip.{InRange, extract-InRange}
use chud_os.Memory.Frames.{Memory}
use chud_os.Memory.Walk.{
  entry_address, slot, walk_tables, table_flags, table_indices,
  calculate_page_physical_entry_address, phys_addr,
}
use chud_os.Memory.Walk.Strata.{IsStratified, Room}
use chud_os.Memory.Walk.Extend.{Extends}
use chud_os.Memory.Walk.Route.{IsRoute, AllBelow, Walked, walk-Route, walk-Walked}

abbrev pub root_frame : Memory → ℕ
root_frame m = m.pml4_physical / 0x1000

-- The page table for `e` lies in frame `g`.
abbrev pub TableOf : Memory → PageEntries → ℕ → Type 0
TableOf m e g = IsRoute m (table_indices e) (root_frame m) g

root_eq :
    {level : ℕ → ℕ} {m : Memory} → IsStratified level m → m.pml4_physical ≡ 0x1000 * root_frame m
root_eq s = omega (arith, s.root_aligned)

pub indices_below : (e : PageEntries) → InRange e → AllBelow (table_indices e)
indices_below e r = (r.pml4, (r.pdpt, (r.pd, tt)))

-- Where the tables are there, the walk finds the entry and changes nothing.
pub calculate-TableOf :
    {level : ℕ → ℕ} {m : Memory} (e : PageEntries) (g : ℕ)
    → IsStratified level m
    → InRange e
    → TableOf m e g
    → calculate_page_physical_entry_address e m ≡ (slot (0x1000 * g) e.pt_entry, m)
unfolding calculate_page_physical_entry_address
calculate-TableOf {m} e g s r w =
    ap (λ (out : ℕ × Memory). (slot out.0 e.pt_entry, out.1))
      (ap (λ (t : ℕ). walk_tables (table_indices e) t (table_flags e) m) (root_eq s)
        ∙ walk-Route (root_frame m) g (table_indices e) (table_flags e) s (indices_below e r)
            s.root_level w)

table_flags-odd : (e : PageEntries) → table_flags e % 2 ≡ 1
table_flags-odd e = ground arith

table_flags-lt : (e : PageEntries) → table_flags e < 0x100
table_flags-lt e = ground arith

-- The outcome of a walk: tables that extend the old ones, with a page table for `e`.
abbrev pub Calculated : (ℕ → ℕ) → Memory → PageEntries → ℕ × Memory → Type 0
Calculated level m e out =
    (level' : ℕ → ℕ) × (g : ℕ) × Extends level m level' out.1
    × TableOf out.1 e g
    × (out.0 ≡ slot (0x1000 * g) e.pt_entry)

-- On stratified tables with three frames to spare, CalculatePagePhysicalEntryAddress returns the address
-- of the entry for its indices in a page table that the tables, which are still stratified and keep
-- what was present, now lead to.
pub calculate-Calculated :
    (level : ℕ → ℕ) (m : Memory) (e : PageEntries)
    → IsStratified level m
    → InRange e
    → Room 3 m
    → Calculated level m e (calculate_page_physical_entry_address e m)
unfolding calculate_page_physical_entry_address
calculate-Calculated level m e s r room =
    let is = table_indices e in
    let walked =
      walk-Walked level m is (root_frame m) (table_flags e) s (indices_below e r) s.root_level
        (table_flags-odd e) (table_flags-lt e) room in
    let (lb, g, x, route, end) =
      subst (λ (t : ℕ). Walked level m is (root_frame m) (walk_tables is t (table_flags e) m))
        (sym (root_eq s)) walked in
    let m' = (calculate_page_physical_entry_address e m).1 in
    let from_root = subst (λ (p : ℕ). IsRoute m' is (p / 0x1000) g) (sym x.same_root) route in
    (lb, g, x, from_root, ap (λ (t : ℕ). slot t e.pt_entry) end)

-- The page and the offset of an address.
page_of : (p : ℕ) → p < 2 ^ 64 → bit_and p 0xffff_ffff_ffff_f000 ≡ p / 0x1000 * 0x1000
page_of p h = omega (arith, bit_and-field 12 52 p)

-- phys_addr of an address whose page table is there: the frame that the entry names, with the
-- offset of the address; memory is left as it is.
pub phys_addr-TableOf :
    {level : ℕ → ℕ} {m : Memory} (va d g frame : ℕ)
    → IsStratified level m
    → va % 0x1000 ≡ 0
    → d < 0x1000
    → va + d < 2 ^ 64
    → TableOf m (extract_page_entries va) g
    → entry_address (m.word (slot (0x1000 * g) (extract_page_entries va).pt_entry)) ≡ 0x1000 * frame
    → phys_addr (va + d) m ≡ (0x1000 * frame + d, m)
unfolding phys_addr
phys_addr-TableOf {m} va d g frame s aligned hd top w e =
    let page : bit_and (va + d) 0xffff_ffff_ffff_f000 ≡ va = omega (arith, page_of (va + d) top) in
    let offset : bit_and (va + d) 0xfff ≡ d = omega (arith, bit_and-low_mask 12 (va + d)) in
    rw (page, offset, calculate-TableOf (extract_page_entries va) g s (extract-InRange va) w, e)
      (ap (λ (t : ℕ). (t, m)) (bit_or_multiple 12 frame (0x1000 * frame) d (omega arith) hd))
