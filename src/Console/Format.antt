-- ===== src/Console/Format.antt =====
-- printf of src/kernel/Libraries/std.c. `lead` are the two bytes before the format text, which the scans read;
-- `none` is where a value is used that was never set, or an access is outside of a buffer.
use chud_os.Base.{
  ℕ, zero, suc, ◌+◌, ◌-◌, not, ◌&&◌, ltb, ◌==◌, if◌then◌else◌, Option, none, some, List, [], ◌∷◌,
  get_or,
}
use chud_os.Text.{Buffer}
use chud_os.Text.Number.{int_to_char_array, int_to_char_array_hex, int_to_char_array_binary}
use chud_os.Console.{Screen, Text, calculate_string_length, print}

pub data PrintfType : Type 0 where
  null : PrintfType
  int : PrintfType
  hex : PrintfType
  bin : PrintfType
  char : PrintfType
  str : PrintfType
  percent : PrintfType

abbrev percent_sign : ℕ
percent_sign = 37

-- The characters i, d, x, b, c, s and %.
pub type_of : ℕ → PrintfType
type_of c =
    if c == 105
    then int
    else if c == 100
    then int
    else if c == 120
    then hex
    else if c == 98
    then bin
    else if c == 99
    then char
    else if c == 115
    then str
    else if c == 37
    then percent
    else null

-- The loop of printf_get_type, with the number of percent signs seen.
pub get_type_from : ℕ → ℕ → ℕ → ℕ → Text → Option PrintfType
get_type_from zero cur seen index text = none
get_type_from (suc rounds) cur seen index text =
    let follows = not (cur == 0) && (get_or text (cur - 1) 0 == percent_sign) in
    let passed = get_type_from rounds (suc cur) seen index text in
    let counted = get_type_from rounds (suc cur) (suc seen) index text in
    if not follows
    then passed
    else if suc seen == index
    then some (type_of (get_or text cur 0))
    else counted

pub printf_get_type : Text → ℕ → ℕ → Option PrintfType
printf_get_type text length index = get_type_from length 0 0 (index + 1) text

-- `text` here is the format text with the two bytes before it.
pub scan_from : ℕ → Text → ℕ
scan_from zero text = 0
scan_from (suc length) text =
    let rest = scan_from length text in
    if (get_or text (length + 1) 0 == percent_sign) && not (get_or text length 0 == percent_sign)
    then suc rest
    else rest

pub printf_scan_length : List ℕ → Text → ℕ → ℕ
printf_scan_length lead text length = scan_from length (get_or lead 0 0 ∷ get_or lead 1 0 ∷ text)

abbrev char_before : List ℕ → Text → ℕ → ℕ
char_before lead text zero = get_or lead 1 0
char_before lead text (suc i) = get_or text i 0

-- The position of the next conversion.
pub find_conversion : ℕ → ℕ → List ℕ → Text → Option ℕ
find_conversion zero i lead text = none
find_conversion (suc rounds) i lead text =
    let rest = find_conversion rounds (suc i) lead text in
    if (get_or text i 0 == percent_sign)
      && not (get_or text (i + 1) 0 == percent_sign)
      && not (char_before lead text i == percent_sign)
    then some i
    else rest

abbrev text_from : ℕ → Text → Text
text_from zero text = text
text_from (suc i) [] = []
text_from (suc i) (c ∷ cs) = text_from i cs

-- The result is not set where there is no conversion.
pub printf_print_from : List ℕ → Text → ℕ → ℕ → Screen → Option ℕ × Screen
printf_print_from lead text length start s =
    elim (find_conversion (length - start) start lead text) [
      | none ↦
          (none, if ltb start length then print (text_from start text) (length - start) s else s)
      | some i ↦
          (some (i + 2), if i == start then s else print (text_from start text) (i - start) s)
    ]

-- What an argument prints, with the buffer `variable_print` and the stack that the conversions use. A
-- string, and the percent sign, print nothing and take no argument.
pub print_argument :
    PrintfType → Buffer → Buffer → List ℕ → Screen → Option (Buffer × List ℕ × Screen)
print_argument int stack buffer (a ∷ args) s = elim (int_to_char_array stack a buffer 64 0) [
  | none ↦ none
  | some text ↦ some (text, args, print text 0 s)
]
print_argument hex stack buffer (a ∷ args) s = elim (int_to_char_array_hex stack a buffer 64 0) [
  | none ↦ none
  | some text ↦ some (text, args, print text 0 s)
]
print_argument bin stack buffer (a ∷ args) s = elim (int_to_char_array_binary stack a buffer 64 0) [
  | none ↦ none
  | some text ↦ some (text, args, print text 0 s)
]
print_argument char stack buffer (a ∷ args) s = some (buffer, args, print (a ∷ 0 ∷ []) 0 s)
print_argument null stack buffer args s = some (buffer, args, s)
print_argument str stack buffer args s = some (buffer, args, s)
print_argument percent stack buffer args s = some (buffer, args, s)
print_argument int stack buffer [] s = none
print_argument hex stack buffer [] s = none
print_argument bin stack buffer [] s = none
print_argument char stack buffer [] s = none

-- The loop over the arguments, from argument `i` and position `cur` on.
pub printf_arguments :
    ℕ → ℕ → List ℕ → Text → ℕ → Buffer → Buffer → ℕ → List ℕ → Screen → Option (ℕ × Screen)
printf_arguments zero i lead text length stack buffer cur args s = some (cur, s)
printf_arguments (suc rounds) i lead text length stack buffer cur args s =
    let (next, shown) = printf_print_from lead text length cur s in
    elim next [
      | none ↦ none
      | some cur' ↦ elim (printf_get_type text length i) [
        | none ↦ none
        | some type ↦ elim (print_argument type stack buffer args shown) [
          | none ↦ none
          | some (buffer', args', s') ↦
              printf_arguments rounds (suc i) lead text length stack buffer' cur' args' s'
        ]
      ]
    ]

pub printf : List ℕ → Text → Buffer → Buffer → List ℕ → Screen → Option Screen
printf lead text stack buffer args s =
    let length = calculate_string_length text in
    let args_length = printf_scan_length lead text length in
    if args_length == 0
    then some (print text 0 s)
    else elim (printf_arguments args_length 0 lead text length stack buffer 0 args s) [
      | none ↦ none
      | some (cur, s') ↦ some (printf_print_from lead text length cur s').1
    ]
