-- ===== src/Text/Number/Digits.antt =====
-- The loops over digits, in any base: what they write reads back as the number.
use chud_os.Base.{
  ℕ, zero, suc, ◌+◌, ◌*◌, ◌/◌, ◌%◌, ◌^◌, ◌<◌, ◌≤◌, ◌≡◌, ◌≢◌, refl, sym, ap, ◌∙◌, arith, ==_of_ne,
  some, length, get_or, set, length-set, get_or-set_self, get_or-set_ne, lt→ltb,
}
use native.Mathlib.Decide.{ℕ_discrete}
use chud_os.Text.{Buffer}
use chud_os.Text.Number.{count_digits, write_digits}

-- A base with characters for its digits, and their meaning.
pub record Radix (base : ℕ) (char value : ℕ → ℕ) : Type 0 where
  pub halves : (n : ℕ) → n / base ≤ n / 2
  pub split : (n : ℕ) → base * (n / base) + n % base ≡ n
  pub read : (n : ℕ) → value (char (n % base)) ≡ n % base
  pub below : (n : ℕ) → n % base < base

module _ {base : ℕ} {char value : ℕ → ℕ} (radix : Radix base char value) where
  -- `n` has at most `i` digits.
  abbrev pub Fits : ℕ → ℕ → Type 0
  Fits zero n = n ≡ 0
  Fits (suc i) n = Fits i (n / base)

  pub count_digits-Fits : (rounds n : ℕ) → n < 2 ^ rounds → Fits (count_digits base rounds n) n
  unfolding count_digits
  count_digits-Fits zero n h = omega arith
  count_digits-Fits (suc rounds) n h = elim (ℕ_discrete n 0) [
    | yes e ↦ rw e refl
    | no ne ↦
        rw (==_of_ne n 0 ne) (count_digits-Fits rounds (n / base) (omega (arith, radix.halves n)))
  ]

  -- `n` has `i` digits, the first of which is not zero.
  abbrev pub Leads : ℕ → ℕ → Type 0
  Leads zero n = n ≡ 0
  Leads (suc zero) n = n % base ≢ 0
  Leads (suc (suc i)) n = Leads (suc i) (n / base)

  Leads-step : (i n : ℕ) → n ≢ 0 → Leads i (n / base) → Leads (suc i) n
  Leads-step zero n ne e = λ z.
      let product : base * (n / base) ≡ 0 = ap (λ (q : ℕ). base * q) e ∙ omega arith in
      absurd (ne (omega (arith, radix.split n, product, z)))
  Leads-step (suc i) n ne h = h

  pub count_digits-Leads : (rounds n : ℕ) → n < 2 ^ rounds → Leads (count_digits base rounds n) n
  unfolding count_digits
  count_digits-Leads zero n h = omega arith
  count_digits-Leads (suc rounds) n h = elim (ℕ_discrete n 0) [
    | yes e ↦ rw e refl
    | no ne ↦ rw (==_of_ne n 0 ne) (
        Leads-step (count_digits base rounds (n / base)) n ne
          (count_digits-Leads rounds (n / base) (omega (arith, radix.halves n))))
  ]

  pub count_digits-positive : (rounds n : ℕ) → n ≢ 0 → 0 < count_digits base (suc rounds) n
  unfolding count_digits
  count_digits-positive rounds n ne = rw (==_of_ne n 0 ne) (omega arith)

  -- The number that the first `i` characters from `offset` on spell.
  abbrev pub spelled : ℕ → ℕ → Buffer → ℕ
  spelled offset zero buffer = 0
  spelled offset (suc i) buffer =
      base * spelled offset i buffer + value (get_or buffer (i + offset) 0)

  leading_digit : (i n : ℕ) → i ≡ 0 → Leads (suc i) n → n % base ≢ 0
  leading_digit zero n e l = l
  leading_digit (suc i) n e l = absurd (omega arith)

  Leads-rest : (i n : ℕ) → 0 < i → Leads (suc i) n → Leads i (n / base)
  Leads-rest zero n h l = absurd (omega arith)
  Leads-rest (suc i) n h l = l

  pub record Written (offset i n : ℕ) (buffer buffer' : Buffer) : Type 0 where
    pub size : length buffer' ≡ length buffer
    pub number : spelled offset i buffer' ≡ n
    pub below : (j : ℕ) → j < offset → get_or buffer' j 0 ≡ get_or buffer j 0
    pub above : (j : ℕ) → i + offset ≤ j → get_or buffer' j 0 ≡ get_or buffer j 0
    pub digit :
        (j : ℕ)
        → j < i
        → (q : ℕ) × (q < base)
          × (get_or buffer' (j + offset) 0 ≡ char q)
          × (j ≡ 0 → Leads i n → q ≢ 0)

  pub write_digits-Written :
      (offset i n : ℕ) (buffer : Buffer)
      → Fits i n
      → i + offset ≤ length buffer
      → (buffer' : Buffer) × (write_digits base char offset i n buffer ≡ some buffer')
        × Written offset i n buffer buffer'
  unfolding write_digits
  write_digits-Written offset zero n buffer fits room = (
    buffer,
    refl,
    record {
      size = refl;
      number = sym fits;
      below = λ j h. refl;
      above = λ j h. refl;
      digit = λ j h. absurd (omega arith);
    },
  )
  write_digits-Written offset (suc i) n buffer fits room =
      let c = char (n % base) in
      let put' = set buffer (i + offset) c in
      let there : i + offset < length buffer = omega arith in
      let same = length-set buffer (i + offset) c in
      let (buffer', e, w) =
        write_digits-Written offset i (n / base) put' fits (omega (arith, same)) in
      let digit : get_or buffer' (i + offset) 0 ≡ c =
        w.above (i + offset) (omega arith) ∙ get_or-set_self buffer (i + offset) c 0 there in
      let elsewhere = λ (j : ℕ) (ne : i + offset ≢ j). get_or-set_ne buffer c 0 ne in
      (
        buffer',
        rw (lt→ltb (i + offset) (length buffer) there) e,
        record {
          size = w.size ∙ same;
          number =
              ap (λ (m : ℕ). base * m + value (get_or buffer' (i + offset) 0)) w.number
              ∙ ap (λ (x : ℕ). base * (n / base) + value x) digit
              ∙ ap (λ (x : ℕ). base * (n / base) + x) (radix.read n)
              ∙ radix.split n;
          below = λ j h. w.below j h ∙ elsewhere j (λ e. absurd (omega arith));
          above = λ j h. w.above j (omega arith) ∙ elsewhere j (λ e. absurd (omega arith));
          digit = λ j h. elim (ℕ_discrete j i) [
            | yes e' ↦ (
              n % base,
              radix.below n,
              ap (λ (k : ℕ). get_or buffer' (k + offset) 0) e' ∙ digit,
              λ z. leading_digit i n (sym e' ∙ z),
            )
            | no ne ↦
                let (q, small, same_char, leads) = w.digit j (omega arith) in
                (q, small, same_char, λ z l. leads z (Leads-rest i n (omega arith) l))
          ];
        },
      )
