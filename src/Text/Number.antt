-- ===== src/Text/Number.antt =====
-- int_to_char_array, int_to_char_array_hex, int_to_char_array_binary and pad_string of
-- src/kernel/Libraries/std.c. Their numbers are unsigned, so `n < 0` never holds, `abs` of
-- src/kernel/Libraries/Math.c returns its argument, and the branches for a negative number are dead.
pub mod Digits
pub mod Padding
pub mod Decimal
pub mod Hex
use chud_os.Base.{
  ℕ, zero, suc, ◌+◌, ◌-◌, ◌*◌, ◌/◌, ◌%◌, Bool, not, ◌&&◌, ◌||◌, Option, none, some, length,
  get_elem?, ltb, leb, ◌==◌, if◌then◌else◌,
}
use chud_os.Text.{◌>>=◌, Buffer, put}

abbrev pub char_0 : ℕ
char_0 = 48

abbrev pub char_a : ℕ
char_a = 65

-- The loop that counts digits; the rounds are more than a 64-bit number has digits.
unfoldable pub count_digits : ℕ → ℕ → ℕ → ℕ
count_digits base zero temp = 0
count_digits base (suc rounds) temp =
    let rest = suc (count_digits base rounds (temp / base)) in if temp == 0 then 0 else rest

abbrev pub digits : ℕ → ℕ → ℕ
digits base n = count_digits base 64 n

-- The loop that writes the digits of `n` from the right, the last one at `offset + i - 1`.
pub write_digits : ℕ → (ℕ → ℕ) → ℕ → ℕ → ℕ → Buffer → Option Buffer
write_digits base char offset zero n buffer = some buffer
write_digits base char offset (suc i) n buffer =
    put (i + offset) (char (n % base)) buffer >>= write_digits base char offset i (n / base)

abbrev pub decimal_char : ℕ → ℕ
decimal_char d = d + char_0

abbrev pub hex_char : ℕ → ℕ
hex_char d = if ltb d 10 then d + char_0 else d - 10 + char_a

abbrev pub binary_char : ℕ → ℕ
binary_char d = (if d == 1 then 1 else 0) + char_0

-- The scan of pad_string for the end of the string, for at most that many characters.
pub scan_null : ℕ → ℕ → Buffer → Option ℕ
scan_null zero i buffer = none
scan_null (suc rounds) i buffer =
    let rest = scan_null rounds (suc i) buffer in
    get_elem? buffer i >>= (λ c. if c == 0 then some i else rest)

-- `for(int i = 0; i < rounds; i++) to[i + to_offset] = from[i + from_offset];` from `i` on.
pub copy_chars : ℕ → ℕ → ℕ → ℕ → Buffer → Buffer → Option Buffer
copy_chars zero i to_offset from_offset from to = some to
copy_chars (suc rounds) i to_offset from_offset from to =
    get_elem? from (i + from_offset)
    >>= (λ c. put (i + to_offset) c to >>= copy_chars rounds (suc i) to_offset from_offset from)

pub fill_chars : ℕ → ℕ → ℕ → Buffer → Option Buffer
fill_chars zero i offset to = some to
fill_chars (suc rounds) i offset to =
    put (i + offset) char_0 to >>= fill_chars rounds (suc i) offset

-- The moves of pad_string, by way of `temp`, an array of `buffer_size` characters that starts out
-- uninitialised. `size` is the length of the text that is padded.
pub pad_moves : ℕ → ℕ → ℕ → ℕ → Buffer → Buffer → Option Buffer
pad_moves padding buffer_size start size temp buffer = do
  temp1 ← copy_chars start 0 0 0 buffer temp
  temp2 ← copy_chars buffer_size 0 (padding + start - size) start buffer temp1
  temp3 ← fill_chars (padding - size) 0 start temp2
  copy_chars buffer_size 0 0 0 temp3 buffer

pub pad_string : Buffer → ℕ → ℕ → ℕ → Buffer → Option Buffer
pad_string temp padding buffer_size start buffer =
    let scanned = scan_null (suc (length buffer)) 0 buffer in
    if (buffer_size == 0) || leb buffer_size start || ltb buffer_size padding
    then some buffer
    else scanned >>= (λ end.
      if leb end start || leb padding (end - start)
      then some buffer
      else pad_moves padding buffer_size start (end - start) temp buffer)

pub int_to_char_array : Buffer → ℕ → Buffer → ℕ → ℕ → Option Buffer
int_to_char_array temp n buffer buffer_size padding =
    let count = digits 10 n in
    let zeroed = put 0 char_0 buffer >>= put 1 0 in
    let converted = put count 0 buffer >>= write_digits 10 decimal_char 0 count n in
    if n == 0
    then (if padding == 0 then zeroed else zeroed >>= pad_string temp padding buffer_size 0)
    else if ltb buffer_size count
    then some buffer
    else converted >>= pad_string temp padding buffer_size 0

-- `0x` or `0b` in front of the digits, by the code of the second character.
abbrev pub write_prefix : ℕ → Buffer → Option Buffer
write_prefix letter buffer = put 0 char_0 buffer >>= put 1 letter

abbrev pub write_zero : ℕ → Buffer → Option Buffer
write_zero letter buffer = write_prefix letter buffer >>= put 2 char_0 >>= put 3 0

pub int_to_char_array_hex : Buffer → ℕ → Buffer → ℕ → ℕ → Option Buffer
int_to_char_array_hex temp n buffer buffer_size padding =
    let count = digits 16 n in
    let required_size = count + 2 in
    let converted =
      put required_size 0 buffer >>= write_digits 16 hex_char 2 count n >>= write_prefix 120 in
    if n == 0
    then (if padding == 0
        then write_zero 120 buffer
        else write_zero 120 buffer >>= pad_string temp padding buffer_size 2)
    else if ltb buffer_size required_size
    then some buffer
    else converted >>= pad_string temp padding buffer_size 2

pub int_to_char_array_binary : Buffer → ℕ → Buffer → ℕ → ℕ → Option Buffer
int_to_char_array_binary temp n buffer buffer_size padding =
    let count = digits 2 n in
    let converted =
      put (count + 2) 0 buffer >>= write_digits 2 binary_char 2 count n >>= write_prefix 98 in
    if n == 0
    then (if padding == 0
        then write_zero 98 buffer
        else write_zero 98 buffer >>= pad_string temp padding buffer_size 2)
    else if ltb buffer_size count
    then some buffer
    else if padding == 0
    then converted
    else converted >>= pad_string temp padding buffer_size 2
