-- ===== src/Memory/Address/RoundTrip.antt =====
-- A virtual address and its page entries determine one another.
use chud_os.Base.{
  ℕ, ◌↔◌, ◌+◌, ◌-◌, ◌*◌, ◌/◌, ◌%◌, ◌^◌, ◌≤◌, ◌<◌, bit_and, bit_or, ◌≡◌, refl, true, ◌⊎◌, arith, ltb,
  if◌then◌else◌,
}
use chud_os.Base.Bits.{bit_and-low_mask, bit_or_multiple}
use native.Mathlib.Nat.{mod-eq_of_lt}
use chud_os.Memory.Address.{
  PageEntries, extract_page_entries, join_entries, calculate_page_address, is_canonical,
}

-- The four indices have nine bits, the offset twelve.
pub record InRange (e : PageEntries) : Type 0 where
  pub pml4 : e.pml4_entry < 512
  pub pdpt : e.pdpt_entry < 512
  pub pd : e.pd_entry < 512
  pub pt : e.pt_entry < 512
  pub offset : e.page_offset < 4096

-- The value that the fields spell in 48 bits.
abbrev pub spelled : PageEntries → ℕ
spelled e =
    e.pml4_entry * 2 ^ 39
    + e.pdpt_entry * 2 ^ 30
    + e.pd_entry * 2 ^ 21
    + e.pt_entry * 2 ^ 12
    + e.page_offset

-- Four `|` of disjoint fields are a sum.
or_of_fields :
    (a b c d o : ℕ)
    → a < 512
    → b < 512
    → c < 512
    → d < 512
    → o < 4096
    → bit_or (bit_or (bit_or (bit_or (a * 2 ^ 39) (b * 2 ^ 30)) (c * 2 ^ 21)) (d * 2 ^ 12)) o
      ≡ a * 2 ^ 39 + b * 2 ^ 30 + c * 2 ^ 21 + d * 2 ^ 12 + o
or_of_fields a b c d o ha hb hc hd ho = rw (
  bit_or_multiple 39 a (a * 2 ^ 39) (b * 2 ^ 30) refl (omega arith),
  bit_or_multiple 30 (a * 512 + b) (a * 2 ^ 39 + b * 2 ^ 30) (c * 2 ^ 21) (omega arith)
      (omega arith),
  bit_or_multiple 21 (a * 2 ^ 18 + b * 512 + c) (a * 2 ^ 39 + b * 2 ^ 30 + c * 2 ^ 21) (d * 2 ^ 12)
      (omega arith) (omega arith),
  bit_or_multiple 12 (a * 2 ^ 27 + b * 2 ^ 18 + c * 512 + d)
      (a * 2 ^ 39 + b * 2 ^ 30 + c * 2 ^ 21 + d * 2 ^ 12) o (omega arith) (omega arith),
)

masked : (k x : ℕ) → x < 2 ^ k → bit_and x (2 ^ k - 1) ≡ x
masked k x h = rw (bit_and-low_mask, mod-eq_of_lt h)

unwrapped : (x : ℕ) → x < 2 ^ 64 → x % 2 ^ 64 ≡ x
unwrapped x h = omega arith

join_entries-spelled : (e : PageEntries) → InRange e → join_entries e ≡ spelled e
unfolding join_entries
join_entries-spelled e r = rw (
  masked 9 e.pml4_entry r.pml4,
  masked 9 e.pdpt_entry r.pdpt,
  masked 9 e.pd_entry r.pd,
  masked 9 e.pt_entry r.pt,
  masked 12 e.page_offset r.offset,
  unwrapped (e.pml4_entry * 2 ^ 39) (omega (arith, r.pml4)),
  unwrapped (e.pdpt_entry * 2 ^ 30) (omega (arith, r.pdpt)),
  unwrapped (e.pd_entry * 2 ^ 21) (omega (arith, r.pd)),
  unwrapped (e.pt_entry * 2 ^ 12) (omega (arith, r.pt)),
  or_of_fields e.pml4_entry e.pdpt_entry e.pd_entry e.pt_entry e.page_offset r.pml4 r.pdpt r.pd r.pt
      r.offset,
)

-- The fields of `extract_page_entries` as quotients and remainders.
extract_fields :
    (va : ℕ)
    → (extract_page_entries va).pml4_entry ≡ va / 2 ^ 39 % 512
      × (extract_page_entries va).pdpt_entry ≡ va / 2 ^ 30 % 512
      × (extract_page_entries va).pd_entry ≡ va / 2 ^ 21 % 512
      × (extract_page_entries va).pt_entry ≡ va / 2 ^ 12 % 512
      × (extract_page_entries va).page_offset ≡ va % 4096
unfolding extract_page_entries
extract_fields va = (
  bit_and-low_mask 9 (va / 2 ^ 39),
  bit_and-low_mask 9 (va / 2 ^ 30),
  bit_and-low_mask 9 (va / 2 ^ 21),
  bit_and-low_mask 9 (va / 2 ^ 12),
  bit_and-low_mask 12 va,
)

pub extract-InRange : (va : ℕ) → InRange (extract_page_entries va)
extract-InRange va = omega (arith, extract_fields va)

-- Bits 48 to 63 of an address that the processor accepts repeat bit 47.
abbrev pub Canonical : ℕ → Type 0
Canonical va = (va < 2 ^ 47) ⊎ ((2 ^ 64 - 2 ^ 47 ≤ va) × (va < 2 ^ 64))

-- The address is the sign extension of the 48-bit value that the fields spell.
calculate-spelled :
    (e : PageEntries)
    → InRange e
    → calculate_page_address e
      ≡ (if ltb (spelled e) (2 ^ 47) then spelled e else spelled e + (2 ^ 64 - 2 ^ 48))
unfolding calculate_page_address
calculate-spelled e r = rw (join_entries-spelled e r) (ground (arith, r))

entries_eq :
    (d e : PageEntries)
    → d.pml4_entry ≡ e.pml4_entry
    → d.pdpt_entry ≡ e.pdpt_entry
    → d.pd_entry ≡ e.pd_entry
    → d.pt_entry ≡ e.pt_entry
    → d.page_offset ≡ e.page_offset
    → d ≡ e
entries_eq d e a b c f o i = record {
  pml4_entry = a i;
  pdpt_entry = b i;
  pd_entry = c i;
  pt_entry = f i;
  page_offset = o i;
}

-- On every canonical address CalculatePageAddress undoes ExtractPageEntries.
pub calculate-extract :
    (va : ℕ) → Canonical va → calculate_page_address (extract_page_entries va) ≡ va
unfolding calculate_page_address
calculate-extract va c =
    rw (join_entries-spelled (extract_page_entries va) (extract-InRange va))
      (ground (arith, extract_fields va))

-- On entries in range ExtractPageEntries undoes CalculatePageAddress, and the address is canonical.
pub extract-calculate :
    (e : PageEntries)
    → InRange e
    → (extract_page_entries (calculate_page_address e) ≡ e) × Canonical (calculate_page_address e)
extract-calculate e r = (
  entries_eq (extract_page_entries (calculate_page_address e)) e
      (ground (arith, r, calculate-spelled e r, extract_fields (calculate_page_address e)))
      (ground (arith, r, calculate-spelled e r, extract_fields (calculate_page_address e)))
      (ground (arith, r, calculate-spelled e r, extract_fields (calculate_page_address e)))
      (ground (arith, r, calculate-spelled e r, extract_fields (calculate_page_address e)))
      (ground (arith, r, calculate-spelled e r, extract_fields (calculate_page_address e))),
  ground (arith, r, calculate-spelled e r),
)

-- IsCanonical answers true exactly below 2 ^ 47: it refuses every address of the upper half, the
-- kernel's own among them.
pub is_canonical_iff : (va : ℕ) → va < 2 ^ 64 → (is_canonical va ≡ true) ↔ (va < 2 ^ 47)
unfolding is_canonical
is_canonical_iff va h = ground arith
