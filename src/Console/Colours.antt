-- ===== src/Console/Colours.antt =====
-- The coloured prints and the snapshot of the cursor of src/kernel/Libraries/std.c.
use chud_os.Base.{ℕ, ◌||◌, ◌==◌, if◌then◌else◌}
use chud_os.Console.{Screen, Text, set_text_color, print}

abbrev white : ℕ
white = 0xF

abbrev light_cyan : ℕ
light_cyan = 0xB

abbrev light_red : ℕ
light_red = 0xC

abbrev light_green : ℕ
light_green = 0xA

-- A print in a colour on black, after which the colour is white.
abbrev in_color : ℕ → (Screen → Screen) → Screen → Screen
in_color color show s = set_text_color white 0 (show (set_text_color color 0 s))

pub print_debug : Text → ℕ → Screen → Screen
print_debug text length s = in_color light_cyan (print text length) s

pub print_error : Text → ℕ → Screen → Screen
print_error text length s = in_color light_red (print text length) s

pub print_success : Text → ℕ → Screen → Screen
print_success text length s = in_color light_green (print text length) s

pub take_print_snapshot : Screen → Screen
take_print_snapshot s = record s { snapshot_x = s.cur_x; snapshot_y = s.cur_y }

-- Where the snapshot has the column or the row of the cursor, the cursor itself is used, and moves.
pub print_snapshot : Text → ℕ → Screen → Screen
print_snapshot text length s =
    let shown = print text length (record s { cur_x = s.snapshot_x; cur_y = s.snapshot_y }) in
    if (s.snapshot_x == s.cur_x) || (s.snapshot_y == s.cur_y)
    then print text length s
    else record shown { cur_x = s.cur_x; cur_y = s.cur_y }

pub print_debug_snapshot : Text → ℕ → Screen → Screen
print_debug_snapshot text length s = in_color light_cyan (print_snapshot text length) s

pub print_error_snapshot : Text → ℕ → Screen → Screen
print_error_snapshot text length s = in_color light_red (print_snapshot text length) s

pub print_success_snapshot : Text → ℕ → Screen → Screen
print_success_snapshot text length s = in_color light_green (print_snapshot text length) s
