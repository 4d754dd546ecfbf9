-- ===== src/Syscalls/Fork/Shared.antt =====
-- The page-table entries that FORK of src/kernel/drivers/Userland/syscall.c shares.
use chud_os.Base.{ℕ, ◌+◌, ◌*◌, ◌/◌, ◌%◌, ◌^◌, ◌<◌, ◌≡◌, refl, sym, ◌∙◌, arith, bit_or}
use chud_os.Base.Bits.{
  bit_and-field, bit_and-low_mask, bit_or-pow, bit_or-pow_low, bit_or-pow_high, bit_and-clear_one,
  bit_or_multiple, bit_or-zero,
}
use chud_os.Memory.Walk.{entry_address}
use chud_os.Memory.Alloc.{page_table_entry}
use chud_os.Syscalls.Fork.{cow_entry, shared_page}

-- The marked entry, in its parts.
marked :
    (entry : ℕ)
    → entry < 2 ^ 64
    → cow_entry entry ≡ entry / 1024 * 1024 + 512 + entry % 512 / 4 * 4 + entry % 2
unfolding cow_entry
marked entry h =
    let y = bit_or entry (2 ^ 9) in
    let low = bit_or-pow_low 9 entry in
    let bit = bit_or-pow 9 entry in
    let high = bit_or-pow_high 9 entry in
    omega (arith, low, bit, high, bit_and-clear_one y (omega (arith, low, bit, high)))

address_lem : (entry : ℕ) → entry_address entry ≡ entry / 2 ^ 12 % 2 ^ 40 * 2 ^ 12
address_lem entry = bit_and-field 12 40 entry

child_entry :
    (cur_page entry : ℕ) → entry < 2 ^ 52 → page_table_entry (shared_page cur_page entry) ≡ entry
unfolding page_table_entry
child_entry cur_page entry h =
    rw
      (
        bit_and-low_mask 12 entry,
        address_lem entry,
        bit_or_multiple 12 (entry / 2 ^ 12 % 2 ^ 40) (entry / 2 ^ 12 % 2 ^ 40 * 2 ^ 12)
            (entry % 2 ^ 12) refl (omega arith),
        bit_or-zero,
      )
      (omega arith)

-- The entry that FORK leaves in the parent for a page whose entry has none of the bits above the address
-- field: it maps the same frame and is present as before, it is not writable, it is marked for a copy on
-- write, and the entry that alloc_page writes for the child is the same one.
pub cow_entry-shared :
    (cur_page entry : ℕ)
    → entry < 2 ^ 52
    → (entry_address (cow_entry entry) ≡ entry_address entry)
      × (cow_entry entry % 2 ≡ entry % 2)
      × (cow_entry entry / 2 % 2 ≡ 0)
      × (cow_entry entry / 2 ^ 9 % 2 ≡ 1)
      × (page_table_entry (shared_page cur_page (cow_entry entry)) ≡ cow_entry entry)
cow_entry-shared cur_page entry h =
    let parts = marked entry (omega arith) in
    (
      address_lem (cow_entry entry) ∙ omega (arith, parts) ∙ sym (address_lem entry),
      omega (arith, parts),
      omega (arith, parts),
      omega (arith, parts),
      child_entry cur_page (cow_entry entry) (omega (arith, parts)),
    )
