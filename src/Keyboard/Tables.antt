-- ===== src/Keyboard/Tables.antt =====
-- The two tables of src/kernel/drivers/Devices/PS2/Keyboard.c, and which scan codes read past their end.
use chud_os.Base.{
  ℕ, zero, suc, ◌≤◌, ◌<◌, ◌≡◌, ◌≢◌, ◌↔◌, refl, arith, Bool, inl, inr, if◌then◌else◌, bit_and,
  Bool-cases, none, some, List, [], ◌∷◌, length, get_elem?, get_or, get_elem?-get_or,
}
use chud_os.Tasks.{InterruptRegisters, Kernel, set_registers}
use chud_os.Keyboard.{
  Keyboard, key_code_lookup_table, key_code_lookup_table_shift, key_code_to_char, is_upper,
  press_entry, store_typed, press_key, handle_keyboard_interrupt,
}

pub get_elem?_past {ℓ} : {A : Type ℓ} (xs : List A) (i : ℕ) → length xs ≤ i → get_elem? xs i ≡ none
get_elem?_past [] i h = refl
get_elem?_past (x ∷ xs) zero h = absurd (omega arith)
get_elem?_past (x ∷ xs) (suc i) h = get_elem?_past xs i (omega arith)

pub in_table :
    (i : ℕ) → i < 85 → get_elem? key_code_lookup_table i ≡ some (get_or key_code_lookup_table i 0)
unfolding key_code_lookup_table
in_table i h = get_elem?-get_or key_code_lookup_table i 0 (omega arith)

past_table : (i : ℕ) → 85 ≤ i → get_elem? key_code_lookup_table i ≡ none
unfolding key_code_lookup_table
past_table i h = get_elem?_past key_code_lookup_table i (omega arith)

in_shift_table :
    (i : ℕ)
    → i < 85
    → get_elem? key_code_lookup_table_shift i ≡ some (get_or key_code_lookup_table_shift i 0)
unfolding key_code_lookup_table_shift
in_shift_table i h = get_elem?-get_or key_code_lookup_table_shift i 0 (omega arith)

-- The character of a key in the table.
abbrev pub char_of : ℕ → Bool → ℕ
char_of key_code shifted =
    if shifted
    then get_or key_code_lookup_table_shift key_code 0
    else get_or key_code_lookup_table key_code 0

pub key_code_to_char-char_of :
    (key_code : ℕ) (kb : Keyboard)
    → key_code < 85
    → key_code_to_char key_code kb ≡ some (char_of key_code (is_upper kb))
unfolding key_code_to_char
key_code_to_char-char_of key_code kb h = elim (Bool-cases (is_upper kb)) [
  | inl up ↦ rw up (in_shift_table key_code h)
  | inr low ↦ rw low (in_table key_code h)
]

entry_IsSome :
    (entry key_code : ℕ) (kb : Keyboard) (k : Kernel)
    → key_code < 85
    → press_entry (some entry) key_code kb k ≢ none
unfolding press_entry store_typed
entry_IsSome zero key_code kb k h = ground arith
entry_IsSome (suc c) key_code kb k h = rw (key_code_to_char-char_of key_code kb h) (λ e. cc)

press_key-IsSome :
    (key_code : ℕ) (kb : Keyboard) (k : Kernel) → key_code < 85 → press_key key_code kb k ≢ none
unfolding press_key
press_key-IsSome key_code kb k h =
    rw (in_table key_code h)
      (entry_IsSome (get_or key_code_lookup_table key_code 0) key_code kb k h)

press_key-past :
    (key_code : ℕ) (kb : Keyboard) (k : Kernel) → 85 ≤ key_code → press_key key_code kb k ≡ none
unfolding press_key
press_key-past key_code kb k h = rw (past_table key_code h) refl

-- The interrupt reads past the end of the table exactly if a byte is waiting and it is 85, the code that the
-- enumeration gives to F12: the table has 85 entries, one too few.
pub handle_keyboard_interrupt-none :
    (status scancode : ℕ) (regs : InterruptRegisters) (kb : Keyboard) (k : Kernel)
    → (handle_keyboard_interrupt status scancode regs kb k ≡ none)
      ↔ ((bit_and status 1 ≢ 0) × (scancode ≡ 85))
unfolding handle_keyboard_interrupt
handle_keyboard_interrupt-none status scancode regs kb k =
    let saved = set_registers k.cur_pid regs k in
    (
      λ e. ground (arith, e, press_key-IsSome scancode kb saved),
      λ h. ground (arith, h, press_key-past 85 kb saved (omega arith)),
    )
