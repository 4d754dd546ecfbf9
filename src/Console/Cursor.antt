-- ===== src/Console/Cursor.antt =====
-- Where print leaves the cursor.
use chud_os.Base.{
  ℕ, zero, suc, ◌+◌, ◌-◌, ◌<◌, ◌≤◌, ◌≡◌, ◌≢◌, refl, ◌∙◌, arith, ◌==◌, ==_of_ne, if◌then◌else◌,
  get_or,
}
use native.Mathlib.Decide.{ℕ_discrete}
use chud_os.Console.{
  calculate_string_length, Screen, Text, int_sub, write_character, vga_scroll, scroll, new_line,
  find_column, print_space, print_backspace, print_plain, print_character, cls, clear_cells,
  clear_lines, clear_screen, print_from, print, next_word_length, wrap, make_room,
}

-- The cursor between two characters. Column 80 is the end of a line that is not the last one.
pub record OnScreen (s : Screen) : Type 0 where
  pub column : s.cur_x ≤ 80
  pub row : s.cur_y ≤ 24
  pub edge : s.cur_x + s.cur_y < 104

-- The cursor once there is room for a character: not in the last cell.
record Ready (s : Screen) : Type 0 where
  pub column : s.cur_x ≤ 79
  pub row : s.cur_y ≤ 24
  pub edge : s.cur_x + s.cur_y < 103

scroll-cursor : (s : Screen) → ((scroll 1 s).cur_x ≡ 0) × ((scroll 1 s).cur_y ≡ s.cur_y)
unfolding scroll vga_scroll
scroll-cursor s = (refl, refl)

record Wrapped (s : Screen) : Type 0 where
  pub column : s.cur_x ≤ 79
  pub row : s.cur_y ≤ 24

wrap-Wrapped : (s : Screen) → OnScreen s → Wrapped (wrap s)
wrap-Wrapped s o = record { column = ground (arith, o); row = ground (arith, o) }

make_room-Ready : (s : Screen) → Wrapped s → Ready (make_room s)
unfolding scroll vga_scroll
make_room-Ready s w = record {
  column = ground (arith, w);
  row = ground (arith, w);
  edge = ground (arith, w);
}

Ready-OnScreen : (s : Screen) → Ready s → OnScreen s
Ready-OnScreen s r = record {
  column = omega (arith, r.column);
  row = r.row;
  edge = omega (arith, r.edge);
}

new_line-OnScreen : (s : Screen) → s.cur_y ≤ 24 → OnScreen (new_line s)
unfolding new_line scroll vga_scroll
new_line-OnScreen s h = record { column = ground arith; row = ground arith; edge = ground arith }

print_space-OnScreen : (word : ℕ) (s : Screen) → Ready s → OnScreen (print_space word s)
unfolding print_space write_character new_line scroll vga_scroll
print_space-OnScreen word s r = record {
  column = ground (arith, r);
  row = ground (arith, r);
  edge = ground (arith, r);
}

print_plain-OnScreen : (c : ℕ) (s : Screen) → Ready s → OnScreen (print_plain c s)
unfolding print_plain write_character new_line scroll vga_scroll
print_plain-OnScreen c s r = record {
  column = ground (arith, r);
  row = ground (arith, r);
  edge = ground (arith, r);
}

find_column-below : (rounds i y : ℕ) (s : Screen) → i + rounds ≤ 80 → find_column rounds i y s ≤ 79
unfolding find_column
find_column-below zero i y s h = omega arith
find_column-below (suc rounds) i y s h = ground (arith, find_column-below rounds (suc i) y s)

print_backspace-OnScreen : (s : Screen) → Ready s → OnScreen (print_backspace s)
unfolding print_backspace write_character
print_backspace-OnScreen s r =
    let c = find_column-below 80 0 (int_sub s.cur_y 1) s (omega arith) in
    record {
      column = ground (arith, r, c);
      row = ground (arith, r, c);
      edge = ground (arith, r, c);
    }

-- Clearing leaves the cursor.
clear_cells-cursor :
    (rounds i y : ℕ) (s : Screen)
    → ((clear_cells rounds i y s).cur_x ≡ s.cur_x) × ((clear_cells rounds i y s).cur_y ≡ s.cur_y)
unfolding clear_cells write_character
clear_cells-cursor zero i y s = (refl, refl)
clear_cells-cursor (suc rounds) i y s =
    clear_cells-cursor rounds (suc i) y (write_character 32 i y s)

clear_lines-cursor :
    (rounds i : ℕ) (s : Screen)
    → ((clear_lines rounds i s).cur_x ≡ s.cur_x) × ((clear_lines rounds i s).cur_y ≡ s.cur_y)
unfolding clear_lines
clear_lines-cursor zero i s = (refl, refl)
clear_lines-cursor (suc rounds) i s =
    let (ex, ey) = clear_lines-cursor rounds (suc i) (clear_cells 80 0 i s) in
    let (fx, fy) = clear_cells-cursor 80 0 i s in (ex ∙ fx, ey ∙ fy)

cls-OnScreen : (s : Screen) → OnScreen (cls s)
unfolding cls clear_screen
cls-OnScreen s =
    let (ex, ey) = clear_lines-cursor 25 0 (record s { cur_x = 0; cur_y = 0 }) in
    record { column = omega (arith, ex); row = omega (arith, ey); edge = omega (arith, ex, ey) }

return-OnScreen : (s : Screen) → Ready s → OnScreen (record s { cur_x = 0 })
return-OnScreen s r = record { column = omega arith; row = r.row; edge = omega (arith, r.row) }

print_character-OnScreen :
    (c word : ℕ) (s : Screen) → c ≢ 9 → OnScreen s → OnScreen (print_character c word s)
unfolding print_character
print_character-OnScreen c word s tab o =
    let s' = make_room (wrap s) in
    let r = make_room-Ready (wrap s) (wrap-Wrapped s o) in
    elim (ℕ_discrete c 32) [
      | yes e ↦ rw e (print_space-OnScreen word s' r)
      | no ne32 ↦ elim (ℕ_discrete c 10) [
        | yes e ↦ rw e (new_line-OnScreen s' r.row)
        | no ne10 ↦ elim (ℕ_discrete c 8) [
          | yes e ↦ rw e (print_backspace-OnScreen s' r)
          | no ne8 ↦ elim (ℕ_discrete c 13) [
            | yes e ↦ rw e (return-OnScreen s' r)
            | no ne13 ↦ elim (ℕ_discrete c 12) [
              | yes e ↦ rw e (cls-OnScreen s')
              | no ne12 ↦
                  rw
                    (
                      ==_of_ne c 32 ne32,
                      ==_of_ne c 10 ne10,
                      ==_of_ne c 8 ne8,
                      ==_of_ne c 9 tab,
                      ==_of_ne c 13 ne13,
                      ==_of_ne c 12 ne12,
                    )
                    (print_plain-OnScreen c s' r)
            ]
          ]
        ]
      ]
    ]

print_from-OnScreen :
    (rounds i length : ℕ) (text : Text) (s : Screen)
    → ((j : ℕ) → get_or text j 0 ≢ 9)
    → OnScreen s
    → OnScreen (print_from rounds i length text s)
unfolding print_from
print_from-OnScreen zero i length text s tabs o = o
print_from-OnScreen (suc rounds) i length text s tabs o = elim (ℕ_discrete (get_or text i 0) 0) [
  | yes e ↦ rw e (Ready-OnScreen (make_room (wrap s)) (make_room-Ready (wrap s) (wrap-Wrapped s o)))
  | no ne ↦
      let word = next_word_length (length - (i + 1)) (i + 1) text in
      rw (==_of_ne (get_or text i 0) 0 ne) (
        print_from-OnScreen rounds (suc i) length text (print_character (get_or text i 0) word s)
          tabs (print_character-OnScreen (get_or text i 0) word s (tabs i) o))
]

-- print of a text without tabs keeps the cursor on the screen, in rows 0 to 24 and columns 0 to 80, where
-- column 80, behind a space, is left by the next character and never reached in the last row.
pub print-OnScreen :
    (text : Text) (length : ℕ) (s : Screen)
    → ((j : ℕ) → get_or text j 0 ≢ 9)
    → OnScreen s
    → OnScreen (print text length s)
unfolding print
print-OnScreen text length s tabs o =
    let l = if length == 0 then calculate_string_length text else length in
    print_from-OnScreen l 0 l text s tabs o
