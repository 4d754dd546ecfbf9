-- ===== src/Text/Number/Hex.antt =====
-- int_to_char_array_hex: the prefix and the digits that it writes.
use chud_os.Base.{
  ℕ, zero, suc, ◌+◌, ◌-◌, ◌*◌, ◌^◌, ◌<◌, ◌≤◌, ◌≡◌, ◌≢◌, ◌⊎◌, inl, inr, refl, sym, ap, ◌∙◌, arith,
  ==_of_ne, some, length, get_or, set, length-set, get_or-set_self, get_or-set_ne, ltb, lt→ltb,
  not-ltb, if◌then◌else◌,
}
use native.Mathlib.Decide.{dec_lt}
use chud_os.Text.{◌>>=◌, Buffer, put}
use chud_os.Text.Number.{digits, write_digits, hex_char, write_prefix, int_to_char_array_hex}
use chud_os.Text.Number.Padding.{IsText, pad_string-long}
use chud_os.Text.Number.Digits.{
  Radix, count_digits-Fits, count_digits-positive, count_digits-Leads, spelled,
  write_digits-Written,
}

abbrev pub hex_value : ℕ → ℕ
hex_value c = if ltb c 65 then c - 48 else c - 55

pub hex-Radix : Radix 16 hex_char hex_value
hex-Radix = record {
  halves = λ n. omega arith;
  split = λ n. omega arith;
  read = λ n. ground arith;
  below = λ n. omega arith;
}

-- The digits are read from the characters from 2 on only.
spelled_eq :
    (i : ℕ) (b b' : Buffer)
    → ((j : ℕ) → 2 ≤ j → get_or b' j 0 ≡ get_or b j 0)
    → spelled hex-Radix 2 i b' ≡ spelled hex-Radix 2 i b
spelled_eq zero b b' same = refl
spelled_eq (suc i) b b' same =
    ap (λ (x : ℕ). 16 * x + hex_value (get_or b' (i + 2) 0)) (spelled_eq i b b' same)
    ∙ ap (λ (c : ℕ). 16 * spelled hex-Radix 2 i b + hex_value c) (same (i + 2) (omega arith))

-- A character from `0` to `9` or from `A` to `F`.
abbrev pub IsHexDigit : ℕ → Type 0
IsHexDigit c = ((48 ≤ c) × (c ≤ 57)) ⊎ ((65 ≤ c) × (c ≤ 70))

hex_char-IsHexDigit : (q : ℕ) → q < 16 → IsHexDigit (hex_char q)
hex_char-IsHexDigit q h = elim (dec_lt q 10) [
  | yes low ↦ rw (lt→ltb q 10 low) (inl (omega arith, omega arith))
  | no high ↦ rw (not-ltb q 10 high) (inr (omega arith, omega arith))
]

hex_char-leading : (q : ℕ) → q < 16 → q ≢ 0 → hex_char q ≢ 48
hex_char-leading q h ne = ground arith

-- What stands in the buffer: `0x`, the hexadecimal numeral of `n` and the end of the text. The characters of
-- the numeral are hexadecimal digits, the first is not `0`, and read in base sixteen they give `n`.
pub record HexText (n : ℕ) (buffer buffer' : Buffer) : Type 0 where
  pub size : length buffer' ≡ length buffer
  pub zero_digit : get_or buffer' 0 0 ≡ 48
  pub letter : get_or buffer' 1 0 ≡ 120
  pub digit : (j : ℕ) → j < digits 16 n → IsHexDigit (get_or buffer' (j + 2) 0)
  pub leading : get_or buffer' 2 0 ≢ 48
  pub number : spelled hex-Radix 2 (digits 16 n) buffer' ≡ n
  pub text : IsText (digits 16 n + 2) buffer'

prefixed : (b : Buffer) → 2 ≤ length b → write_prefix 120 b ≡ some (set (set b 0 48) 1 120)
prefixed b h =
    rw
      (
        lt→ltb 0 (length b) (omega arith),
        lt→ltb 1 (length (set b 0 48)) (omega (arith, length-set b 0 48)),
      )
      refl

after_prefix : (b : Buffer) (j : ℕ) → 2 ≤ j → get_or (set (set b 0 48) 1 120) j 0 ≡ get_or b j 0
after_prefix b j h =
    get_or-set_ne (set b 0 48) 120 0 (λ e. absurd (omega arith))
    ∙ get_or-set_ne b 48 0 (λ e. absurd (omega arith))

IsHexDigit-visible : (c : ℕ) → IsHexDigit c → c ≢ 0
IsHexDigit-visible c h z = absurd (ground (arith, h, z))

shown-prefix :
    (b : Buffer) (count : ℕ)
    → ((j : ℕ) → j < count → get_or b (j + 2) 0 ≢ 0)
    → get_or (set (set b 0 48) 1 120) 0 0 ≡ 48
    → get_or (set (set b 0 48) 1 120) 1 0 ≡ 120
    → (j : ℕ) → j < count + 2
    → get_or (set (set b 0 48) 1 120) j 0 ≢ 0
shown-prefix b count shown first second zero h z = absurd (omega (arith, first, z))
shown-prefix b count shown first second (suc zero) h z = absurd (omega (arith, second, z))
shown-prefix b count shown first second (suc (suc j)) h z =
    let same : j + 2 ≡ suc (suc j) = omega arith in
    shown j (omega arith)
      (ap (λ (k : ℕ). get_or b k 0) same ∙ sym (after_prefix b (suc (suc j)) (omega arith)) ∙ z)

converted_hex :
    (n : ℕ) (buffer : Buffer)
    → n ≢ 0
    → n < 2 ^ 64
    → digits 16 n + 2 < length buffer
    → (buffer' : Buffer) × ((put (digits 16 n + 2) 0 buffer
          >>= write_digits 16 hex_char 2 (digits 16 n) n
          >>= write_prefix 120)
        ≡ some buffer')
      × HexText n buffer buffer'
converted_hex n buffer ne small room =
    let count = digits 16 n in
    let ended = set buffer (count + 2) 0 in
    let same = length-set buffer (count + 2) 0 in
    let (b, e, w) =
      write_digits-Written hex-Radix 2 count n ended (count_digits-Fits hex-Radix 64 n small)
        (omega (arith, same)) in
    let long : 2 ≤ length b = omega (arith, w.size, same) in
    let b' = set (set b 0 48) 1 120 in
    let size_0 = length-set b 0 48 in
    let first : get_or b' 0 0 ≡ 48 =
      get_or-set_ne (set b 0 48) 120 0 (λ e. absurd (omega arith))
      ∙ get_or-set_self b 0 48 0 (omega arith) in
    let second : get_or b' 1 0 ≡ 120 =
      get_or-set_self (set b 0 48) 1 120 0 (omega (arith, size_0)) in
    let hex_at : (j : ℕ) → j < count → IsHexDigit (get_or b (j + 2) 0) =
      λ j h. let (q, below, e', _) = w.digit j h in rw e' (hex_char-IsHexDigit q below) in
    let moved : (j : ℕ) → get_or b' (j + 2) 0 ≡ get_or b (j + 2) 0 =
      λ j. after_prefix b (j + 2) (omega arith) in
    (
      b',
      rw (lt→ltb (count + 2) (length buffer) room, e) (prefixed b long),
      record {
        size = length-set (set b 0 48) 1 120 ∙ size_0 ∙ w.size ∙ same;
        zero_digit = first;
        letter = second;
        digit = λ j h. rw (moved j) (hex_at j h);
        leading =
            let (q, below, e', leads) = w.digit 0 (count_digits-positive hex-Radix 63 n ne) in
            λ z.
              hex_char-leading q below (leads refl (count_digits-Leads hex-Radix 64 n small))
                (sym (moved 0 ∙ e') ∙ z);
        number = spelled_eq count b b' (after_prefix b) ∙ w.number;
        text = record {
          inside = omega (arith, length-set (set b 0 48) 1 120, size_0, w.size, same);
          ended =
              after_prefix b (count + 2) (omega arith)
              ∙ w.above (count + 2) (omega arith)
              ∙ get_or-set_self buffer (count + 2) 0 0 room;
          shown = shown-prefix b count (λ j h z. IsHexDigit-visible _ (hex_at j h) z) first second;
        };
      },
    )

-- A 64-bit number that is not zero, in a buffer with room for `0x`, its hexadecimal digits and the end of the
-- text, with no more padding than digits: int_to_char_array_hex writes these inside the buffer. Each
-- digit is one of `0` to `9` and `A` to `F`, the first is not `0`, and read in base sixteen they give the number.
pub int_to_char_array_hex-HexText :
    (temp : Buffer) (n padding : ℕ) (buffer : Buffer)
    → n ≢ 0
    → n < 2 ^ 64
    → digits 16 n + 2 < length buffer
    → padding ≤ digits 16 n
    → (buffer' : Buffer) × (int_to_char_array_hex temp n buffer (length buffer) padding
        ≡ some buffer')
      × HexText n buffer buffer'
unfolding int_to_char_array_hex
int_to_char_array_hex-HexText temp n padding buffer ne small room short =
    let (buffer', e, c) = converted_hex n buffer ne small room in
    (
      buffer',
      rw (==_of_ne n 0 ne, not-ltb (length buffer) (digits 16 n + 2) (omega arith), e)
          (pad_string-long temp padding (length buffer) 2 (digits 16 n + 2) buffer' c.text
            (omega arith)),
      c,
    )
