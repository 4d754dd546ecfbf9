-- ===== src/Text/Number/Padding.antt =====
-- pad_string: the scan for the end of the text, and the moves, which leave their arrays.
use chud_os.Base.{
  ℕ, zero, suc, ◌+◌, ◌-◌, ◌<◌, ◌≤◌, ◌≡◌, ◌≢◌, refl, arith, ==_of_ne, inl, inr, none, some,
  Option-cases, length, get_elem?, get_or, set, get_elem?-get_or, length-set, not-ltb, lt→ltb,
}
use native.Mathlib.Decide.{ℕ_discrete, dec_lt}
use chud_os.Text.{Buffer}
use chud_os.Text.Number.{scan_null, copy_chars, pad_moves, pad_string}

-- A text of `size` characters and its end.
pub record IsText (size : ℕ) (buffer : Buffer) : Type 0 where
  pub inside : size < length buffer
  pub ended : get_or buffer size 0 ≡ 0
  pub shown : (j : ℕ) → j < size → get_or buffer j 0 ≢ 0

scan_null-IsText :
    (rounds i size : ℕ) (buffer : Buffer)
    → IsText size buffer
    → i ≤ size
    → size < i + rounds
    → scan_null rounds i buffer ≡ some size
unfolding scan_null
scan_null-IsText zero i size buffer t h h' = absurd (omega arith)
scan_null-IsText (suc rounds) i size buffer t h h' =
    rw (get_elem?-get_or buffer i 0 (omega (arith, t.inside))) (elim (ℕ_discrete i size) [
      | yes e ↦ rw (e, t.ended) refl
      | no ne ↦
          rw (==_of_ne (get_or buffer i 0) 0 (t.shown i (omega arith)))
            (scan_null-IsText rounds (suc i) size buffer t (omega arith) (omega arith))
    ])

-- Copying past the end of the target fails.
pub copy_chars-overflow :
    (rounds i to_offset from_offset : ℕ) (from to : Buffer)
    → 0 < rounds
    → length to < rounds + i + to_offset
    → copy_chars rounds i to_offset from_offset from to ≡ none
unfolding copy_chars
copy_chars-overflow zero i to_offset from_offset from to h h' = absurd (omega arith)
copy_chars-overflow (suc rounds) i to_offset from_offset from to h h' =
    elim (Option-cases (get_elem? from (i + from_offset))) [
      | inl e ↦ rw e refl
      | inr (c, e) ↦ elim (dec_lt (i + to_offset) (length to)) [
        | no out ↦ rw (e, not-ltb (i + to_offset) (length to) out) refl
        | yes inside ↦
            rw (e, lt→ltb (i + to_offset) (length to) inside)
              (copy_chars-overflow rounds (suc i) to_offset from_offset from
                (set to (i + to_offset) c) (omega arith)
                (omega (arith, length-set to (i + to_offset) c)))
      ]
    ]

-- A text that is long enough is left as it is.
pub pad_string-long :
    (temp : Buffer) (padding buffer_size start size : ℕ) (buffer : Buffer)
    → IsText size buffer
    → padding + start ≤ size
    → pad_string temp padding buffer_size start buffer ≡ some buffer
unfolding pad_string
pad_string-long temp padding buffer_size start size buffer t h =
    rw
      (scan_null-IsText (suc (length buffer)) 0 size buffer t (omega arith)
        (omega (arith, t.inside)))
      (ground arith)

-- A text that is to be padded makes pad_string write behind its array `temp`.
pub pad_string-overflow :
    (temp : Buffer) (padding size : ℕ) (buffer : Buffer)
    → IsText size buffer
    → length temp ≡ length buffer
    → 0 < size
    → size < padding
    → padding ≤ length buffer
    → pad_string temp padding (length buffer) 0 buffer ≡ none
unfolding pad_string pad_moves copy_chars
pad_string-overflow temp padding size buffer t same positive short fits =
    let moved =
      copy_chars-overflow (length buffer) 0 (padding + 0 - (size - 0)) 0 buffer temp (omega arith)
        (omega arith) in
    rw
      (
        scan_null-IsText (suc (length buffer)) 0 size buffer t (omega arith)
            (omega (arith, t.inside)),
        moved,
      )
      (ground arith)
