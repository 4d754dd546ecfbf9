-- ===== src/Console/Box.antt =====
-- DrawBox and WriteString of src/kernel/drivers/Display/VGA.c, for sizes and places that are not negative.
use chud_os.Base.{
  ℕ, zero, suc, ◌+◌, ◌-◌, ◌/◌, ◌&&◌, ◌||◌, ◌==◌, if◌then◌else◌, Option, none, some, get_or,
}
use chud_os.Console.{Screen, Text, calculate_string_length, write_character}

-- The loop of WriteString from character `i` on.
pub write_string_from : ℕ → ℕ → Text → ℕ → ℕ → Screen → Screen
write_string_from zero i text x y s = s
write_string_from (suc rounds) i text x y s =
    write_string_from rounds (suc i) text x y (write_character (get_or text i 0) (x + i) y s)

pub write_string : Text → ℕ → ℕ → Screen → Screen
write_string text x y s = write_string_from (calculate_string_length text) 0 text x y s

-- What the outline has at a place in the box; corners come before edges.
pub box_character : ℕ → ℕ → ℕ → ℕ → Option ℕ
box_character w h cur_x cur_y =
    if (cur_x == 0) && (cur_y == 0)
    then some 0xC9
    else if (cur_x + 1 == w) && (cur_y == 0)
    then some 0xBB
    else if (cur_x == 0) && (cur_y + 1 == h)
    then some 0xC8
    else if (cur_x + 1 == w) && (cur_y + 1 == h)
    then some 0xBC
    else if (cur_x == 0) || (cur_x + 1 == w)
    then some 0xBA
    else if (cur_y == 0) || (cur_y + 1 == h)
    then some 0xCD
    else none

abbrev draw_cell : ℕ → ℕ → ℕ → ℕ → ℕ → ℕ → Screen → Screen
draw_cell x y w h cur_x cur_y s = elim (box_character w h cur_x cur_y) [
  | none ↦ s
  | some c ↦ write_character c (cur_x + x) (cur_y + y) s
]

-- The two loops, from a column and from a row on.
pub draw_row : ℕ → ℕ → ℕ → ℕ → ℕ → ℕ → ℕ → Screen → Screen
draw_row zero x y w h cur_x cur_y s = s
draw_row (suc rounds) x y w h cur_x cur_y s =
    draw_row rounds x y w h (suc cur_x) cur_y (draw_cell x y w h cur_x cur_y s)

pub draw_rows : ℕ → ℕ → ℕ → ℕ → ℕ → ℕ → Screen → Screen
draw_rows zero x y w h cur_y s = s
draw_rows (suc rounds) x y w h cur_y s =
    draw_rows rounds x y w h (suc cur_y) (draw_row w x y w h 0 cur_y s)

-- The title is written twice, the second time in the inverted colour.
pub draw_box : ℕ → ℕ → ℕ → ℕ → Text → Screen → Screen
draw_box x y w h title s =
    let title_length = calculate_string_length title in
    let outlined = draw_rows h x y w h 0 s in
    let title_x = x + (w - title_length) / 2 in
    let written = write_string title title_x y outlined in
    let inverted =
      write_string_from title_length 0 title title_x y
        (record written { color = if title_length == 0 then s.color else 0xFF - s.color }) in
    if title_length == 0 then outlined else record inverted { color = s.color }
