-- ===== src/Text/Number/Decimal.antt =====
-- int_to_char_array: what it writes reads back, and where it writes behind its buffers.
use chud_os.Base.{
  ℕ, ◌+◌, ◌-◌, ◌^◌, ◌<◌, ◌≤◌, ◌≡◌, ◌≢◌, refl, sym, ap, ◌∙◌, arith, ==_of_ne, none, some, ◌⊎◌, inl,
  inr, length, get_or, set, length-set, get_or-set_self, lt→ltb, not-ltb,
}
use chud_os.Text.{◌>>=◌, Buffer, put}
use chud_os.Text.Number.{digits, write_digits, decimal_char, int_to_char_array}
use chud_os.Text.Number.Digits.{
  Radix, count_digits-Fits, count_digits-Leads, count_digits-positive, spelled,
  write_digits-Written,
}
use chud_os.Text.Number.Padding.{IsText, pad_string-long, pad_string-overflow}

abbrev pub decimal_value : ℕ → ℕ
decimal_value c = c - 48

pub decimal-Radix : Radix 10 decimal_char decimal_value
decimal-Radix = record {
  halves = λ n. omega arith;
  split = λ n. omega arith;
  read = λ n. omega arith;
  below = λ n. omega arith;
}

-- The buffer holds the decimal numeral of `n`: its characters are the digits 0 to 9, the first is not 0, read
-- in base ten they give `n`, and the end of the text follows.
pub record Converted (n : ℕ) (buffer buffer' : Buffer) : Type 0 where
  pub size : length buffer' ≡ length buffer
  pub digit : (j : ℕ) → j < digits 10 n → (48 ≤ get_or buffer' j 0) × (get_or buffer' j 0 ≤ 57)
  pub leading : get_or buffer' 0 0 ≢ 48
  pub number : spelled decimal-Radix 0 (digits 10 n) buffer' ≡ n
  pub text : IsText (digits 10 n) buffer'

converted :
    (n : ℕ) (buffer : Buffer)
    → n ≢ 0
    → n < 2 ^ 64
    → digits 10 n < length buffer
    → (buffer' : Buffer) × ((put (digits 10 n) 0 buffer
          >>= write_digits 10 decimal_char 0 (digits 10 n) n)
        ≡ some buffer')
      × Converted n buffer buffer'
converted n buffer ne small room =
    let count = digits 10 n in
    let ended = set buffer count 0 in
    let same = length-set buffer count 0 in
    let (buffer', e, w) =
      write_digits-Written decimal-Radix 0 count n ended
        (count_digits-Fits decimal-Radix 64 n small) (omega (arith, same)) in
    let decimal_at : (j : ℕ) → j < count → (48 ≤ get_or buffer' j 0) × (get_or buffer' j 0 ≤ 57) =
      λ j h.
        let (q, below, e', _) = w.digit j h in
        let here : j + 0 ≡ j = omega arith in
        let c : get_or buffer' j 0 ≡ q + 48 = ap (λ (k : ℕ). get_or buffer' k 0) (sym here) ∙ e' in
        rw c (omega arith, omega arith) in
    (
      buffer',
      rw (lt→ltb count (length buffer) room) e,
      record {
        size = w.size ∙ same;
        digit = decimal_at;
        leading =
            let (q, below, e', leads) = w.digit 0 (count_digits-positive decimal-Radix 63 n ne) in
            λ z.
              absurd
                (omega (arith, leads refl (count_digits-Leads decimal-Radix 64 n small), e', z));
        number = w.number;
        text = record {
          inside = omega (arith, w.size, same);
          ended = w.above count (omega arith) ∙ get_or-set_self buffer count 0 0 room;
          shown = λ j h z. absurd (let d = decimal_at j h in omega (arith, d, z));
        };
      },
    )

-- A 64-bit number that is not zero, in a buffer that is longer than its digits, with no more padding than
-- digits: int_to_char_array writes, inside the buffer, the number's decimal numeral and the end of the text.
-- Each character of it is one of `0` to `9`, the first is not `0`, and read in base ten they give the number.
pub int_to_char_array-Converted :
    (temp : Buffer) (n padding : ℕ) (buffer : Buffer)
    → n ≢ 0
    → n < 2 ^ 64
    → digits 10 n < length buffer
    → padding ≤ digits 10 n
    → (buffer' : Buffer) × (int_to_char_array temp n buffer (length buffer) padding ≡ some buffer')
      × Converted n buffer buffer'
unfolding int_to_char_array
int_to_char_array-Converted temp n padding buffer ne small room short =
    let (buffer', e, c) = converted n buffer ne small room in
    (
      buffer',
      rw (==_of_ne n 0 ne, not-ltb (length buffer) (digits 10 n) (omega arith), e)
          (pad_string-long temp padding (length buffer) 0 (digits 10 n) buffer' c.text
            (omega arith)),
      c,
    )

-- int_to_char_array writes outside of its arrays for a number that is not zero in two cases: where the
-- buffer has as many characters as the number has digits, and where the number is to be padded.
pub int_to_char_array-overflow :
    (temp : Buffer) (n padding : ℕ) (buffer : Buffer)
    → n ≢ 0
    → n < 2 ^ 64
    → length temp ≡ length buffer
    → (digits 10 n ≡ length buffer) ⊎ ((digits 10 n < padding) × (padding ≤ length buffer))
    → int_to_char_array temp n buffer (length buffer) padding ≡ none
unfolding int_to_char_array
int_to_char_array-overflow temp n padding buffer ne small same (inl full) =
    rw
      (
        ==_of_ne n 0 ne,
        not-ltb (length buffer) (digits 10 n) (omega arith),
        not-ltb (digits 10 n) (length buffer) (omega arith),
      )
      refl
int_to_char_array-overflow temp n padding buffer ne small same (inr (short, fits)) =
    let (buffer', e, c) = converted n buffer ne small (omega arith) in
    rw (==_of_ne n 0 ne, not-ltb (length buffer) (digits 10 n) (omega arith), e, ← c.size)
      (pad_string-overflow temp padding (digits 10 n) buffer' c.text (same ∙ sym c.size)
        (count_digits-positive decimal-Radix 63 n ne) short (omega (arith, c.size)))
