-- ===== src/Console.antt =====
-- The console: print, NewLine, Scroll, setCursor and cls of src/kernel/Libraries/std.c over the screen
-- memory of src/kernel/drivers/Display/VGA.c. An `int` is its 32-bit two's complement; screen memory is
-- byte-addressed from the start of the VGA buffer.
pub mod Scroll
pub mod Cursor
pub mod Colours
pub mod Format
pub mod Box
use chud_os.Base.{
  ℕ, zero, suc, ◌+◌, ◌-◌, ◌*◌, ◌%◌, ◌^◌, Bool, ◌&&◌, ◌||◌, ltb, leb, ◌==◌, if◌then◌else◌, update,
  List, [], ◌∷◌, get_or, bit_or,
}

pub record Screen : Type 0 where
  pub cur_x : ℕ
  pub cur_y : ℕ
  pub snapshot_x : ℕ
  pub snapshot_y : ℕ
  pub color : ℕ
  pub byte : ℕ → ℕ

-- `a > b`, `a + b` and `a - b` of ints.
abbrev pub int_gt : ℕ → ℕ → Bool
int_gt a b = ltb ((b + 2 ^ 31) % 2 ^ 32) ((a + 2 ^ 31) % 2 ^ 32)

abbrev pub int_add : ℕ → ℕ → ℕ
int_add a b = (a + b) % 2 ^ 32

abbrev pub int_sub : ℕ → ℕ → ℕ
int_sub a b = (a + 2 ^ 32 - b) % 2 ^ 32

-- `x` and `y` are cut to bytes by the call.
pub write_character : ℕ → ℕ → ℕ → Screen → Screen
write_character c x y s =
    let offset = (y % 2 ^ 8 * 80 + x % 2 ^ 8) * 2 in
    record s { byte = update (update s.byte offset c) (offset + 1) s.color }

pub read_character : ℕ → ℕ → Screen → ℕ
read_character x y s = s.byte ((y * 80 + x) * 2)

pub set_text_color : ℕ → ℕ → Screen → Screen
set_text_color foreground background s = record s {
  color = bit_or (background * 2 ^ 4) foreground % 2 ^ 8;
}

pub clear_cells : ℕ → ℕ → ℕ → Screen → Screen
clear_cells zero i y s = s
clear_cells (suc rounds) i y s = clear_cells rounds (suc i) y (write_character 32 i y s)

pub clear_lines : ℕ → ℕ → Screen → Screen
clear_lines zero i s = s
clear_lines (suc rounds) i s = clear_lines rounds (suc i) (clear_cells 80 0 i s)

pub clear_screen : Screen → Screen
clear_screen s = clear_lines 25 0 s

-- `memcpy(buffer + to, buffer + from, 160)`.
pub copy_row : ℕ → ℕ → (ℕ → ℕ) → ℕ → ℕ
copy_row to from byte p = if leb to p && ltb p (to + 160) then byte (from + (p - to)) else byte p

pub copy_rows : ℕ → ℕ → ℕ → (ℕ → ℕ) → ℕ → ℕ
copy_rows zero i n byte = byte
copy_rows (suc rounds) i n byte =
    copy_rows rounds (suc i) n (copy_row (i * 160) (i * 160 + n * 160) byte)

pub vga_scroll : ℕ → Screen → Screen
vga_scroll n s = if n == 0 then s else record s { byte = copy_rows 80 0 n s.byte }

pub scroll : ℕ → Screen → Screen
scroll n s = vga_scroll n (record s { cur_x = 0; snapshot_y = int_sub s.snapshot_y 1 })

pub new_line : Screen → Screen
new_line s = if s.cur_y == 24 then scroll 1 s else record s { cur_x = 0; cur_y = int_add s.cur_y 1 }

-- The comparisons with 0 come last in the source, where only a negative number is still below 0.
pub set_cursor : ℕ → ℕ → Screen → Screen
set_cursor x y s = record s {
  cur_x = if int_gt x 79 then 79 else if int_gt 0 x then 0 else x;
  cur_y = if int_gt y 24 then 24 else if int_gt 0 y then 0 else y;
}

pub cls : Screen → Screen
cls s = clear_screen (record s { cur_x = 0; cur_y = 0 })

-- The characters of the text that is printed; reads behind it find the character 0.
abbrev pub Text : Type 0
Text = List ℕ

unfoldable pub calculate_string_length : Text → ℕ
calculate_string_length [] = 0
calculate_string_length (c ∷ cs) =
    let rest = suc (calculate_string_length cs) in if c == 0 then 0 else rest

-- `nextWordLength`: the characters from `b` on, up to the next space.
pub next_word_length : ℕ → ℕ → Text → ℕ
next_word_length zero b text = 0
next_word_length (suc rounds) b text =
    let rest = suc (next_word_length rounds (suc b) text) in
    if get_or text b 0 == 32 then 1 else rest

-- The loop of a backspace at the start of a line, from column `i` on.
pub find_column : ℕ → ℕ → ℕ → Screen → ℕ
find_column zero i y s = 79
find_column (suc rounds) i y s =
    let rest = find_column rounds (suc i) y s in
    if (read_character i y s == 32) && (read_character (i + 1) y s == 32)
    then i
    else if (read_character i y s == 32) && (i == 79)
    then i
    else rest

abbrev wrap : Screen → Screen
wrap s = if int_gt s.cur_x 79 then record s { cur_x = 0; cur_y = int_add s.cur_y 1 } else s

abbrev make_room : Screen → Screen
make_room s = if (s.cur_x == 79) && (s.cur_y == 24) then scroll 1 s else s

pub print_space : ℕ → Screen → Screen
print_space word s =
    let s' = write_character 32 s.cur_x s.cur_y s in
    if int_gt (int_add word s.cur_x) 79
    then new_line s'
    else record s' { cur_x = int_add s.cur_x 1 }

pub print_backspace : Screen → Screen
print_backspace s =
    let up = int_sub s.cur_y 1 in
    let moved =
      if s.cur_x == 0
      then record s { cur_x = find_column 80 0 up s; cur_y = up }
      else record s { cur_x = int_sub s.cur_x 1 } in
    if (s.cur_x == 0) && (s.cur_y == 0) then s else write_character 32 moved.cur_x moved.cur_y moved

-- After NewLine `curX` is 0, so `4 - (79 - curX)` is -75.
pub print_tab : Screen → Screen
print_tab s =
    let s' = new_line s in
    if int_gt s.cur_x 71
    then record s' { cur_x = int_sub 4 (int_sub 79 s'.cur_x) }
    else record s { cur_x = int_add s.cur_x 4 }

pub print_plain : ℕ → Screen → Screen
print_plain c s =
    let s' = write_character c s.cur_x s.cur_y s in
    if s.cur_x == 79 then new_line s' else record s' { cur_x = int_add s.cur_x 1 }

-- One round of print, for any character but 0, with the length of the word behind it.
pub print_character : ℕ → ℕ → Screen → Screen
print_character c word s =
    let s' = make_room (wrap s) in
    if c == 32
    then print_space word s'
    else if c == 10
    then new_line s'
    else if c == 8
    then print_backspace s'
    else if c == 9
    then print_tab s'
    else if c == 13
    then record s' { cur_x = 0 }
    else if c == 12
    then cls s'
    else print_plain c s'

-- The loop of print; at the character 0 only the two tests before the reading are left.
pub print_from : ℕ → ℕ → ℕ → Text → Screen → Screen
print_from zero i length text s = s
print_from (suc rounds) i length text s =
    let c = get_or text i 0 in
    let next = print_character c (next_word_length (length - (i + 1)) (i + 1) text) s in
    let rest = print_from rounds (suc i) length text next in
    if c == 0 then make_room (wrap s) else rest

pub print : Text → ℕ → Screen → Screen
print text length s =
    let l = if length == 0 then calculate_string_length text else length in print_from l 0 l text s
