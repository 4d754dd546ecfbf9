-- ===== src/Terminal/Refresh.antt =====
-- refreshTerminals and virtualprint of src/kernel/drivers/Userland/terminal.c. An `int` is its
-- 32-bit two's complement; `none` is a read behind the text of a terminal, or where `fuel` is not enough for a row.
pub mod Rows
pub mod Kept
use chud_os.Base.{
  ℕ, zero, suc, ◌+◌, ◌-◌, ◌*◌, ◌%◌, ◌||◌, leb, ltb, ◌==◌, if◌then◌else◌, Option, none, some, List,
  [], ◌∷◌, ◌++◌, get_or, get_elem?, set,
}
use chud_os.Text.{Buffer}
use chud_os.Console.{
  Screen, int_gt, int_add, int_sub, write_character, set_text_color, clear_screen,
}
use chud_os.Terminal.{Terminal, append_text}

abbrev behind : ℕ → Buffer → Buffer
behind zero text = text
behind (suc n) [] = []
behind (suc n) (c ∷ cs) = behind n cs

-- `memcpy(bytes, &bytes[n], 2000 - n)`.
abbrev move_up : ℕ → Buffer → Buffer
move_up n bytes = behind n bytes ++ behind (2000 - n) bytes

-- The variables of the loops over the cells, with the screen and what is changed of the terminal.
pub record Drawing : Type 0 where
  pub screen : Screen
  pub bytes : Buffer
  pub last_pos : ℕ
  pub x : ℕ
  pub cur_x : ℕ
  pub cur_y : ℕ
  pub cur_i : ℕ
  pub skip : ℕ
  pub tlen : ℕ
  pub first_newline : ℕ

abbrev put_here : ℕ → Drawing → Drawing
put_here c d = record d {
  screen = write_character c d.cur_x d.cur_y d.screen;
  cur_x = int_add d.cur_x 1;
}

abbrev next_char : Drawing → Drawing
next_char d = record d { cur_i = d.cur_i + 1 }

-- The cases of a cell, by the next character of the text.
pub draw_char : ℕ → ℕ → Drawing → Drawing
draw_char w c d =
    let diff = int_sub w d.x in
    if int_gt d.cur_y 25 || int_gt d.cur_x 80
    then record d { cur_x = int_add d.cur_x 1 }
    else if int_gt d.skip 1
    then record (put_here 0 d) { skip = int_sub d.skip 1; tlen = int_add d.tlen 1 }
    else if c == 10
    then record (next_char d) {
      skip = diff;
      tlen = int_add d.tlen diff;
      first_newline = if d.first_newline == 0 then d.cur_i + 1 else d.first_newline;
    }
    else if c == 8
    then record (next_char d) {
      x = int_sub d.x 1;
      cur_x = int_sub d.cur_x 1;
      tlen = int_sub d.tlen 1;
    }
    else if c == 9
    then record (next_char d) { skip = int_add d.skip 4; tlen = int_add d.tlen 4 }
    else if c == 13
    then d
    else if c == 0
    then next_char (put_here c d)
    else record (next_char (put_here c d)) { tlen = int_add d.tlen 1 }

-- A text that is too long for the terminal loses its first line.
pub drop_line : ℕ → ℕ → Drawing → Drawing
drop_line w h d =
    if int_gt d.tlen (w * h)
    then record d { last_pos = 0; bytes = move_up d.first_newline d.bytes }
    else d

-- The cells of a row, from the column `x` of the drawing on.
pub draw_terminal_row : ℕ → ℕ → ℕ → Drawing → Option Drawing
draw_terminal_row zero w h d = none
draw_terminal_row (suc fuel) w h d =
    if int_gt w d.x
    then elim (get_elem? d.bytes d.cur_i) [
      | none ↦ none
      | some c ↦
          let drawn = drop_line w h (draw_char w c d) in
          draw_terminal_row fuel w h (record drawn { x = int_add drawn.x 1 })
    ]
    else some d

pub draw_terminal_rows : ℕ → ℕ → ℕ → ℕ → ℕ → Drawing → Option Drawing
draw_terminal_rows fuel zero left w h d = some d
draw_terminal_rows fuel (suc rounds) left w h d =
    elim (draw_terminal_row fuel w h (record d { x = 0 })) [
      | none ↦ none
      | some row ↦
          draw_terminal_rows fuel rounds left w h
            (record row { cur_x = left; cur_y = int_add row.cur_y 1 })
    ]

-- The line with the name, from the column `n` of the terminal on.
pub draw_name : ℕ → ℕ → Terminal → Screen → Screen
draw_name zero n t s = s
draw_name (suc rounds) n t s =
    let nx = t.x + n in
    let c = if ltb n t.name_len then get_or t.name n 0 else 32 in
    draw_name rounds (suc n) t (if leb nx 80 then write_character c nx t.y s else s)

abbrev inverted : ℕ → ℕ
inverted color = 15 - color % 16

-- The drawing of a terminal once its name is drawn.
abbrev start_drawing : Terminal → Screen → Drawing
start_drawing t s =
    let named = draw_name t.w 0 t (set_text_color (inverted t.fg) (inverted t.bg) s) in
    record {
      screen = set_text_color t.fg t.bg named;
      bytes = t.bytes;
      last_pos = t.last_pos;
      x = 0;
      cur_x = t.x;
      cur_y = t.y + 1;
      cur_i = 0;
      skip = 0;
      tlen = 0;
      first_newline = 0;
    }

pub refresh_terminal : ℕ → Terminal → Screen → Option (Terminal × Screen)
refresh_terminal fuel t s = elim (draw_terminal_rows fuel t.h t.x t.w t.h (start_drawing t s)) [
  | none ↦ none
  | some d ↦ some (record t { bytes = d.bytes; last_pos = d.last_pos }, d.screen)
]

pub refresh_from : ℕ → List Terminal → Screen → Option (List Terminal × Screen)
refresh_from fuel [] s = some ([], s)
refresh_from fuel (t ∷ ts) s = elim (if t.visible then refresh_terminal fuel t s else some (t, s)) [
  | none ↦ none
  | some (t', s') ↦ elim (refresh_from fuel ts s') [
    | none ↦ none
    | some (ts', s'') ↦ some (t' ∷ ts', s'')
  ]
]

pub refresh_terminals : ℕ → List Terminal → Screen → Option (List Terminal × Screen)
refresh_terminals fuel ts s = refresh_from fuel ts (clear_screen s)

-- virtualprint: the text is appended to terminal `tid`, and all terminals are drawn again.
pub virtual_print : ℕ → ℕ → Buffer → List Terminal → Screen → Option (List Terminal × Screen)
virtual_print fuel tid src ts s = elim (get_elem? ts tid) [
  | none ↦ none
  | some t ↦ elim (append_text src t) [
    | none ↦ none
    | some t' ↦ refresh_terminals fuel (set ts tid t') s
  ]
]
