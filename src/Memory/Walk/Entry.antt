-- ===== src/Memory/Walk/Entry.antt =====
-- Table entries as numbers: the address that one holds, and the two tests on it.
use chud_os.Base.{ℕ, ◌+◌, ◌*◌, ◌/◌, ◌%◌, ◌^◌, ◌<◌, bit_or, ◌≡◌, true, false, arith}
use chud_os.Base.Bits.{bit_and-low_mask, bit_and-field, bit_or_multiple, odd-bit_or-one}
use chud_os.Memory.Address.RoundTrip.{is_canonical_iff}
use chud_os.Memory.Walk.{entry_address, is_present, lacks_table}

pub entry_address_lem : (x : ℕ) → entry_address x ≡ x / 2 ^ 12 % 2 ^ 40 * 2 ^ 12
entry_address_lem x = bit_and-field 12 40 x

pub is_present_iff : (x : ℕ) → (is_present x ≡ true → x % 2 ≡ 1) × (x % 2 ≡ 1 → is_present x ≡ true)
is_present_iff x = ground (arith, bit_and-low_mask 1 x)

-- An entry that is not present does.
pub lacks_table-true : (x : ℕ) → is_present x ≡ false → lacks_table x ≡ true
unfolding lacks_table
lacks_table-true x a = rw a

-- An entry that is present and points below 2 ^ 47 needs no new table.
pub lacks_table-false :
    (x : ℕ) → is_present x ≡ true → entry_address x < 2 ^ 47 → lacks_table x ≡ false
unfolding lacks_table
lacks_table-false x p h =
    let low = (is_canonical_iff (entry_address x) (omega arith)).1 h in ground arith

-- What EnsureEntry writes: the new table's address, the flags, and the present bit.
module _ (new flags : ℕ) (aligned : new % 0x1000 ≡ 0) (low : new < 2 ^ 47) where
  pub new_entry : flags < 0x1000 → flags % 2 ≡ 1 → bit_or (bit_or new flags) 1 ≡ new + flags
  new_entry small odd =
      rw (bit_or_multiple 12 (new / 0x1000) new flags (omega arith) (omega arith))
        (odd-bit_or-one (new + flags) (omega arith))

  pub entry_address-new : flags < 0x1000 → entry_address (new + flags) ≡ new
  entry_address-new small = omega (arith, entry_address_lem (new + flags))
