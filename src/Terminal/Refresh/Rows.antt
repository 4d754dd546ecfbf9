-- ===== src/Terminal/Refresh/Rows.antt =====
-- The drawing of the rows of a terminal returns and keeps the terminal well-formed.
use chud_os.Base.{
  ℕ, zero, suc, ◌+◌, ◌-◌, ◌*◌, ◌≤◌, ◌<◌, ◌≡◌, ◌≢◌, refl, sym, ap, ◌∙◌, arith, ◌⊎◌, inl, inr, Bool,
  true, false, Bool-cases, ◌==◌, ◌||◌, lt→ltb, not-ltb, if◌then◌else◌, some, [], ◌∷◌, ◌++◌, length,
  get_or, length-append, get_elem?-get_or,
}
use mathlib.Core.Path.{subst}
use native.Mathlib.Decide.{dec_lt}
use chud_os.Text.{Buffer}
use chud_os.Console.{int_gt, int_add}
use chud_os.Terminal.Bounds.{IsClean, get_or-IsClean}
use chud_os.Terminal.Refresh.{
  behind, move_up, Drawing, draw_char, drop_line, draw_terminal_row, draw_terminal_rows,
}

behind-IsClean : (n : ℕ) (b : Buffer) → IsClean b → IsClean (behind n b)
behind-IsClean zero b h = h
behind-IsClean (suc n) [] h = h
behind-IsClean (suc n) (c ∷ cs) h = behind-IsClean n cs (h.1)

append-IsClean : (b b' : Buffer) → IsClean b → IsClean b' → IsClean (b ++ b')
append-IsClean [] b' h h' = h'
append-IsClean (c ∷ cs) b' h h' = (h.0, append-IsClean cs b' (h.1) h')

length-behind : (n : ℕ) (b : Buffer) → length (behind n b) ≡ length b - n
length-behind zero b = omega arith
length-behind (suc n) [] = omega arith
length-behind (suc n) (c ∷ cs) = length-behind n cs ∙ omega arith

length-move_up : (n : ℕ) (b : Buffer) → length b ≡ 2000 → n ≤ 2000 → length (move_up n b) ≡ 2000
length-move_up n b size h =
    length-append (behind n b) (behind (2000 - n) b)
    ∙ omega (arith, size, h, length-behind n b, length-behind (2000 - n) b)

-- What a cell changes, unless the character is a backspace.
record Cell (d d' : Drawing) : Type 0 where
  pub x : d'.x ≡ d.x
  pub bytes : d'.bytes ≡ d.bytes
  pub last_pos : d'.last_pos ≡ d.last_pos
  pub upper : d'.cur_i ≤ d.cur_i + 1
  pub newline : d.first_newline ≤ d.cur_i → d'.first_newline ≤ d'.cur_i

if-cases {ℓ} :
    {A : Type 0} (P : A → Type ℓ) (b : Bool) (m k : A)
    → (b ≡ true → P m)
    → (b ≡ false → P k)
    → P (if b then m else k)
if-cases P true m k hm hk = hm refl
if-cases P false m k hm hk = hk refl

-- A cell that leaves the character, and one that goes on to the next.
stays :
    {d d' : Drawing}
    → d'.x ≡ d.x
    → d'.bytes ≡ d.bytes
    → d'.last_pos ≡ d.last_pos
    → d'.cur_i ≡ d.cur_i
    → d'.first_newline ≡ d.first_newline
    → Cell d d'
stays x bytes last i newline = record {
  x = x;
  bytes = bytes;
  last_pos = last;
  upper = omega (arith, i);
  newline = λ h. omega (arith, i, newline, h);
}

moves :
    {d d' : Drawing}
    → d'.x ≡ d.x
    → d'.bytes ≡ d.bytes
    → d'.last_pos ≡ d.last_pos
    → d'.cur_i ≡ d.cur_i + 1
    → (d'.first_newline ≤ d.first_newline) ⊎ (d'.first_newline ≤ d.cur_i + 1)
    → Cell d d'
moves x bytes last i newline = record {
  x = x;
  bytes = bytes;
  last_pos = last;
  upper = omega (arith, i);
  newline = λ h. ground (arith, i, newline, h);
}

draw_char-Cell : (w c : ℕ) (d : Drawing) → c ≢ 8 → Cell d (draw_char w c d)
unfolding draw_char
draw_char-Cell w c d ne = elim (Bool-cases (int_gt d.cur_y 25 || int_gt d.cur_x 80)) [
  | inl e0 ↦ rw e0 (stays refl refl refl refl refl)
  | inr e0 ↦ elim (Bool-cases (int_gt d.skip 1)) [
    | inl e1 ↦ rw (e0, e1) (stays refl refl refl refl refl)
    | inr e1 ↦ elim (Bool-cases (c == 10)) [
      | inl e2 ↦ rw (e0, e1, e2) (moves refl refl refl refl (ground arith))
      | inr e2 ↦ elim (Bool-cases (c == 8)) [
        | inl e3 ↦ absurd (ne (ground arith))
        | inr e3 ↦ elim (Bool-cases (c == 9)) [
          | inl e4 ↦ rw (e0, e1, e2, e3, e4) (moves refl refl refl refl (inl (omega arith)))
          | inr e4 ↦ elim (Bool-cases (c == 13)) [
            | inl e5 ↦ rw (e0, e1, e2, e3, e4, e5) (stays refl refl refl refl refl)
            | inr e5 ↦ elim (Bool-cases (c == 0)) [
              | inl e6 ↦
                  rw (e0, e1, e2, e3, e4, e5, e6) (moves refl refl refl refl (inl (omega arith)))
              | inr e6 ↦
                  rw (e0, e1, e2, e3, e4, e5, e6) (moves refl refl refl refl (inl (omega arith)))
            ]
          ]
        ]
      ]
    ]
  ]
]

-- The terminal that is being drawn is well-formed, and at most `bound` of its characters are drawn.
pub record Kept (w h bound : ℕ) (d : Drawing) : Type 0 where
  pub size : length d.bytes ≡ 2000
  pub clean : IsClean d.bytes
  pub position : d.last_pos ≤ w * h
  pub newline : d.first_newline ≤ d.cur_i
  pub progress : d.cur_i ≤ bound

Kept-later :
    (w h bound bound' : ℕ) (d : Drawing) → bound ≤ bound' → Kept w h bound d → Kept w h bound' d
Kept-later w h bound bound' d le k = record {
  size = k.size;
  clean = k.clean;
  position = k.position;
  newline = k.newline;
  progress = omega (arith, k.progress);
}

Cell-Kept :
    (w h bound : ℕ) (d d' : Drawing) → Cell d d' → Kept w h bound d → Kept w h (suc bound) d'
Cell-Kept w h bound d d' cell k = record {
  size = ap length cell.bytes ∙ k.size;
  clean = subst IsClean (sym cell.bytes) k.clean;
  position = omega (arith, cell.last_pos, k.position);
  newline = cell.newline k.newline;
  progress = omega (arith, cell.upper, k.progress);
}

drop_line-Kept :
    (w h bound : ℕ) (d : Drawing)
    → bound ≤ 2000
    → Kept w h bound d
    → Kept w h bound (drop_line w h d) × ((drop_line w h d).x ≡ d.x)
unfolding drop_line
drop_line-Kept w h bound d few k =
    if-cases (λ d'. Kept w h bound d' × (d'.x ≡ d.x)) (int_gt d.tlen (w * h)) _ _
      (λ _. (
        record {
          size =
              length-move_up d.first_newline d.bytes k.size (omega (arith, k.newline, k.progress));
          clean =
              append-IsClean (behind d.first_newline d.bytes)
                (behind (2000 - d.first_newline) d.bytes)
                (behind-IsClean d.first_newline d.bytes k.clean)
                (behind-IsClean (2000 - d.first_newline) d.bytes k.clean);
          position = omega arith;
          newline = k.newline;
          progress = k.progress;
        },
        refl,
      ))
      (λ _. (k, refl))

-- A row is drawn with more fuel than it has columns.
draw_terminal_row-Kept :
    (fuel w h bound : ℕ) (d : Drawing)
    → d.x ≤ w
    → w - d.x < fuel
    → w ≤ 2000
    → bound + (w - d.x) ≤ 2000
    → Kept w h bound d
    → (d' : Drawing) × (draw_terminal_row fuel w h d ≡ some d') × Kept w h (bound + (w - d.x)) d'
unfolding draw_terminal_row
draw_terminal_row-Kept zero w h bound d inside enough wide few k = absurd (omega arith)
draw_terminal_row-Kept (suc fuel) w h bound d inside enough wide few k = elim (dec_lt d.x w) [
  | no done ↦
      let stop : int_gt w d.x ≡ false = not-ltb _ _ (λ l. absurd (omega arith)) in
      (d, rw stop refl, Kept-later w h bound (bound + (w - d.x)) d (omega arith) k)
  | yes more ↦
      let go : int_gt w d.x ≡ true = lt→ltb _ _ (omega arith) in
      let c = get_or d.bytes d.cur_i 0 in
      let there = get_elem?-get_or d.bytes d.cur_i 0 (omega (arith, k.size, k.progress)) in
      let cell = draw_char-Cell w c d (get_or-IsClean d.bytes d.cur_i k.clean) in
      let (kept, same) =
        drop_line-Kept w h (suc bound) (draw_char w c d) (omega arith)
          (Cell-Kept w h bound d (draw_char w c d) cell k) in
      let drawn = drop_line w h (draw_char w c d) in
      let next : Drawing = record drawn { x = int_add drawn.x 1 } in
      let step : int_add drawn.x 1 ≡ d.x + 1 = omega (arith, same, cell.x) in
      let (d', e, k') =
        draw_terminal_row-Kept fuel w h (suc bound) next (omega (arith, step)) (omega (arith, step))
          wide (omega (arith, step))
          (record {
            size = kept.size;
            clean = kept.clean;
            position = kept.position;
            newline = kept.newline;
            progress = kept.progress;
          }) in
      (
        d',
        rw (go, there) e,
        Kept-later w h (suc bound + (w - next.x)) (bound + (w - d.x)) d' (omega (arith, step)) k',
      )
]

pub draw_terminal_rows-Kept :
    (fuel rounds left w h bound : ℕ) (d : Drawing)
    → w < fuel
    → bound + rounds * w ≤ 2000
    → Kept w h bound d
    → (d' : Drawing) × (draw_terminal_rows fuel rounds left w h d ≡ some d')
      × Kept w h (bound + rounds * w) d'
unfolding draw_terminal_rows
draw_terminal_rows-Kept fuel zero left w h bound d enough few k =
    (d, refl, Kept-later w h bound (bound + zero * w) d (omega arith) k)
draw_terminal_rows-Kept fuel (suc rounds) left w h bound d enough few k =
    let row_size : suc rounds * w ≡ w + rounds * w = grind arith in
    let (row, e, k1) =
      draw_terminal_row-Kept fuel w h bound (record d { x = 0 }) (omega arith) (omega arith)
        (omega (arith, row_size)) (omega (arith, row_size))
        (record {
          size = k.size;
          clean = k.clean;
          position = k.position;
          newline = k.newline;
          progress = k.progress;
        }) in
    let (d', e', k') =
      draw_terminal_rows-Kept fuel rounds left w h (bound + w)
        (record row { cur_x = left; cur_y = int_add row.cur_y 1 }) enough (omega (arith, row_size))
        (record {
          size = k1.size;
          clean = k1.clean;
          position = k1.position;
          newline = k1.newline;
          progress = omega (arith, k1.progress);
        }) in
    (
      d',
      rw (draw_terminal_rows, e) e',
      Kept-later w h (bound + w + rounds * w) (bound + suc rounds * w) d' (omega (arith, row_size))
          k',
    )
