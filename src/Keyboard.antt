-- ===== src/Keyboard.antt =====
-- The keyboard interrupt of src/kernel/drivers/Devices/PS2/Keyboard.c with the key codes of
-- include/Devices/PS2/Keyboard.h. What the two ports show is an argument; the end-of-interrupt command is
-- left out, and the characters that are shown on the way are part of the result.
pub mod Tables
pub mod Buffer
pub mod Line
mod Tests
use chud_os.Base.{
  ℕ, zero, suc, ◌+◌, ◌-◌, ◌*◌, ◌^◌, Bool, true, false, not, ◌&&◌, ◌||◌, ltb, leb, ◌==◌,
  if◌then◌else◌, bit_and, bit_or, update, Option, none, some, List, [], ◌∷◌, get_elem?,
}
use chud_os.Base.Words.{sub64}
use chud_os.Tasks.{
  InterruptRegisters, Task, Kernel, set_task, set_registers, waiting_process_state,
  ready_process_state, waiting_reason_null,
}

abbrev pub waiting_reason_input : ℕ
waiting_reason_input = 1

abbrev pub l_shift : ℕ
l_shift = 42

abbrev pub r_shift : ℕ
r_shift = 54

abbrev pub caps_lock : ℕ
caps_lock = 58

abbrev pub enter_key : ℕ
enter_key = 28

abbrev pub fu12 : ℕ
fu12 = 85

unfoldable pub key_code_lookup_table : List ℕ
key_code_lookup_table =
    0 ∷ 27 ∷ 49 ∷ 50 ∷ 51 ∷ 52 ∷ 53 ∷ 54 ∷ 55 ∷ 56 ∷ 57 ∷ 48 ∷ 45 ∷ 61 ∷ 8 ∷ 9 ∷ 113 ∷ 119 ∷ 101
    ∷ 114 ∷ 116 ∷ 121 ∷ 117 ∷ 105 ∷ 111 ∷ 112 ∷ 91 ∷ 93 ∷ 0 ∷ 0 ∷ 97 ∷ 115 ∷ 100 ∷ 102 ∷ 103 ∷ 104
    ∷ 106 ∷ 107 ∷ 108 ∷ 59 ∷ 39 ∷ 96 ∷ 0 ∷ 92 ∷ 122 ∷ 120 ∷ 99 ∷ 118 ∷ 98 ∷ 110 ∷ 109 ∷ 44 ∷ 46 ∷ 47
    ∷ 0 ∷ 42 ∷ 0 ∷ 32 ∷ 0 ∷ 0 ∷ 0 ∷ 0 ∷ 0 ∷ 0 ∷ 0 ∷ 0 ∷ 0 ∷ 0 ∷ 0 ∷ 0 ∷ 55 ∷ 56 ∷ 57 ∷ 45 ∷ 52 ∷ 53
    ∷ 54 ∷ 43 ∷ 49 ∷ 50 ∷ 51 ∷ 48 ∷ 46 ∷ 0 ∷ 0 ∷ []

unfoldable pub key_code_lookup_table_shift : List ℕ
key_code_lookup_table_shift =
    0 ∷ 27 ∷ 33 ∷ 64 ∷ 35 ∷ 36 ∷ 37 ∷ 94 ∷ 38 ∷ 42 ∷ 40 ∷ 41 ∷ 95 ∷ 43 ∷ 8 ∷ 9 ∷ 81 ∷ 87 ∷ 69 ∷ 82
    ∷ 84 ∷ 89 ∷ 85 ∷ 73 ∷ 79 ∷ 80 ∷ 123 ∷ 125 ∷ 0 ∷ 0 ∷ 65 ∷ 83 ∷ 68 ∷ 70 ∷ 71 ∷ 72 ∷ 74 ∷ 75 ∷ 76
    ∷ 58 ∷ 34 ∷ 126 ∷ 0 ∷ 124 ∷ 90 ∷ 88 ∷ 67 ∷ 86 ∷ 66 ∷ 78 ∷ 77 ∷ 60 ∷ 62 ∷ 63 ∷ 0 ∷ 42 ∷ 0 ∷ 32
    ∷ 0 ∷ 0 ∷ 0 ∷ 0 ∷ 0 ∷ 0 ∷ 0 ∷ 0 ∷ 0 ∷ 0 ∷ 0 ∷ 0 ∷ 55 ∷ 56 ∷ 57 ∷ 45 ∷ 52 ∷ 53 ∷ 54 ∷ 43 ∷ 49
    ∷ 50 ∷ 51 ∷ 48 ∷ 46 ∷ 0 ∷ 0 ∷ []

pub record Keyboard : Type 0 where
  pub capslock : Bool
  pub upper : Bool
  pub key_buffer : ℕ → ℕ
  pub key_buffer_pos : ℕ

-- What is shown for a key: a character on the terminal, or one through `print`.
pub data Echo : Type 0 where
  silent : Echo
  on_terminal : ℕ → Echo
  on_screen : ℕ → Echo

-- `upper ^ capslock`.
abbrev pub is_upper : Keyboard → Bool
is_upper kb = if kb.upper then not kb.capslock else kb.capslock

-- `none` is a read past the end of the table, which has no entry for F12.
unfoldable pub key_code_to_char : ℕ → Keyboard → Option ℕ
key_code_to_char key_code kb =
    if is_upper kb
    then get_elem? key_code_lookup_table_shift key_code
    else get_elem? key_code_lookup_table key_code

pub canonicalize_arithmetic : ℕ → ℕ
canonicalize_arithmetic addr =
    bit_or (bit_and addr (2 ^ 48 - 1)) (2 ^ 64 - 1 - sub64 (bit_and addr (2 ^ 47)) 1)

abbrev pub awaits_input : Kernel → ℕ → Bool
awaits_input k i =
    (k.task_manager i).exists
    && ((k.task_manager i).process_state == waiting_process_state)
    && ((k.task_manager i).waiting_reason == waiting_reason_input)

-- The loop of GetWaitingProgram, for `rounds` PIDs from `i` on.
unfoldable pub find_waiting_from : ℕ → ℕ → Kernel → ℕ
find_waiting_from zero i k = 512
find_waiting_from (suc rounds) i k =
    let rest = find_waiting_from rounds (suc i) k in if awaits_input k i then i else rest

unfoldable pub get_waiting_program : Kernel → ℕ
get_waiting_program k = find_waiting_from 512 0 k

-- A printable key: lines 101-109.
unfoldable pub store_char : ℕ → Keyboard → Echo × Keyboard
store_char c kb =
    let pos = kb.key_buffer_pos in
    if (c == 8) && ltb 0 pos
    then (on_terminal 8, record kb { key_buffer_pos = pos - 1 })
    else if (c == 9) && ltb pos 252
    then (
      on_screen 9,
      record kb {
        key_buffer = λ i. if ltb pos i && leb i (pos + 4) then 32 else kb.key_buffer i;
        key_buffer_pos = pos + 4;
      },
    )
    else if ltb pos 256
    then (
      on_terminal c,
      record kb { key_buffer = update kb.key_buffer pos c; key_buffer_pos = pos + 1 },
    )
    else (silent, kb)

-- `memcpy(buffer, from, count)` into the bytes of an address space.
abbrev pub copy_in : ℕ → ℕ → (ℕ → ℕ) → (ℕ → ℕ) → ℕ → ℕ
copy_in buffer count from bytes a =
    if ltb (sub64 a buffer) count then from (sub64 a buffer) else bytes a

-- Enter: lines 111-136. The address space is switched there and back.
unfoldable pub deliver_line : ℕ → Keyboard → Kernel → Keyboard × Kernel
deliver_line pid kb k =
    let waiting = k.task_manager pid in
    let len = waiting.saved_registers.rcx in
    let count = if ltb len kb.key_buffer_pos then len else kb.key_buffer_pos in
    let bytes =
      copy_in waiting.saved_registers.rbx count kb.key_buffer (k.space waiting.base_pml4) in
    if pid == 512 then (kb, k) else (
      record kb { key_buffer = λ i. if ltb i 256 then 0 else kb.key_buffer i; key_buffer_pos = 0 },
      set_task pid
          (record waiting {
            waiting_reason = waiting_reason_null;
            process_state = ready_process_state;
          })
          (record k { space = update k.space waiting.base_pml4 bytes }),
    )

abbrev pub KeyResult : Type 0
KeyResult = Option (Echo × Keyboard × Kernel)

store_typed : Option ℕ → Keyboard → Kernel → KeyResult
store_typed none kb k = none
store_typed (some char) kb k = let (echo, kb') = store_char char kb in some (echo, kb', k)

-- A key by its entry in the table, whose test is `KeycodeIsPrintable`: lines 98-136.
press_entry : Option ℕ → ℕ → Keyboard → Kernel → KeyResult
press_entry none key_code kb k = none
press_entry (some zero) key_code kb k =
    let (kb', k') = deliver_line (get_waiting_program k) kb k in
    if key_code == enter_key then some (silent, kb', k') else some (silent, kb, k)
press_entry (some (suc c)) key_code kb k = store_typed (key_code_to_char key_code kb) kb k

unfoldable pub press_key : ℕ → Keyboard → Kernel → KeyResult
unfolding press_entry store_typed
press_key key_code kb k = press_entry (get_elem? key_code_lookup_table key_code) key_code kb k

-- `status` is what port 0x64 shows, and `scancode` what port 0x60 does.
unfoldable pub handle_keyboard_interrupt :
    ℕ → ℕ → InterruptRegisters → Keyboard → Kernel → KeyResult
handle_keyboard_interrupt status scancode regs kb k =
    let saved = set_registers k.cur_pid regs k in
    let release = leb 0x81 scancode && leb scancode 0xD8 in
    let key_code = if release then scancode - 0x80 else scancode in
    let pressed = press_key key_code kb saved in
    if bit_and status 1 == 0
    then some (silent, kb, saved)
    else if (key_code == l_shift) || (key_code == r_shift)
    then some (silent, record kb { upper = not release }, saved)
    else if key_code == caps_lock
    then some (silent, record kb { capslock = not kb.capslock }, saved)
    else if ltb 0 key_code && leb key_code fu12 && not release
    then pressed
    else some (silent, kb, saved)
