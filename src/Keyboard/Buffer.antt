-- ===== src/Keyboard/Buffer.antt =====
-- The line buffer of src/kernel/drivers/Devices/PS2/Keyboard.c, an array of 256 characters.
use chud_os.Base.{
  ℕ, zero, suc, ◌≤◌, ◌≡◌, refl, arith, Bool, true, false, not, ◌&&◌, ltb, leb, ◌==◌, ◌-◌, ◌||◌,
  if◌then◌else◌, bit_and, Option, none, some, get_elem?,
}
use chud_os.Tasks.{InterruptRegisters, Kernel, set_registers}
use chud_os.Keyboard.{
  Keyboard, Echo, KeyResult, silent, enter_key, l_shift, r_shift, caps_lock, fu12, key_code_to_char,
  store_char, deliver_line, get_waiting_program, press_entry, store_typed, press_key,
  handle_keyboard_interrupt, key_code_lookup_table,
}

-- The position stays in the array or at its end, and nothing is written past the array.
abbrev pub Within : Keyboard → Keyboard → Type 0
Within kb kb' =
    (kb'.key_buffer_pos ≤ 256) × ((i : ℕ) → 256 ≤ i → kb'.key_buffer i ≡ kb.key_buffer i)

-- The same of a result, where there is one.
pub ResultWithin : Keyboard → KeyResult → Type 0
ResultWithin kb none = Unit {0}
ResultWithin kb (some (e, kb', k')) = Within kb kb'

store_char-Within :
    (c : ℕ) (kb : Keyboard) → kb.key_buffer_pos ≤ 256 → Within kb (store_char c kb).1
unfolding store_char
store_char-Within c kb h = (ground arith, λ i h'. ground arith)

deliver_line-Within :
    (pid : ℕ) (kb : Keyboard) (k : Kernel)
    → kb.key_buffer_pos ≤ 256
    → Within kb (deliver_line pid kb k).0
unfolding deliver_line
deliver_line-Within pid kb k h = (ground arith, λ i h'. ground arith)

typed-Within :
    (char : Option ℕ) (kb : Keyboard) (k : Kernel)
    → kb.key_buffer_pos ≤ 256
    → ResultWithin kb (store_typed char kb k)
unfolding store_typed ResultWithin
typed-Within none kb k h = tt
typed-Within (some c) kb k h = store_char-Within c kb h

if_Within :
    (kb : Keyboard) (b : Bool) (r r' : KeyResult)
    → ResultWithin kb r
    → ResultWithin kb r'
    → ResultWithin kb (if b then r else r')
if_Within kb true r r' h h' = h
if_Within kb false r r' h h' = h'

entry_Within :
    (entry : Option ℕ) (key_code : ℕ) (kb : Keyboard) (k : Kernel)
    → kb.key_buffer_pos ≤ 256
    → ResultWithin kb (press_entry entry key_code kb k)
unfolding press_entry ResultWithin
entry_Within none key_code kb k h = tt
entry_Within (some zero) key_code kb k h =
    if_Within kb (key_code == enter_key)
      (let (kb', k') = deliver_line (get_waiting_program k) kb k in some (silent, kb', k'))
      (some (silent, kb, k)) (deliver_line-Within (get_waiting_program k) kb k h) (h, λ i h'. refl)
entry_Within (some (suc c)) key_code kb k h = typed-Within (key_code_to_char key_code kb) kb k h

-- The two flags are no part of the buffer.
kept :
    (kb : Keyboard) (echo : Echo) (capslock upper : Bool) (k : Kernel)
    → kb.key_buffer_pos ≤ 256
    → ResultWithin kb (some (echo, record kb { capslock = capslock; upper = upper }, k))
unfolding ResultWithin
kept kb echo capslock upper k h = (h, λ i h'. refl)

-- Whatever a key interrupt does, the position in the line buffer stays within the 256 characters or at
-- their end, and nothing is written past them, where the position was so before.
pub handle_keyboard_interrupt-Within :
    (status scancode : ℕ) (regs : InterruptRegisters) (kb : Keyboard) (k : Kernel)
    → kb.key_buffer_pos ≤ 256
    → ResultWithin kb (handle_keyboard_interrupt status scancode regs kb k)
unfolding handle_keyboard_interrupt press_key
handle_keyboard_interrupt-Within status scancode regs kb k h =
    let saved = set_registers k.cur_pid regs k in
    let release = leb 0x81 scancode && leb scancode 0xD8 in
    let key_code = if release then scancode - 0x80 else scancode in
    let same = kept kb silent kb.capslock kb.upper saved h in
    if_Within kb (bit_and status 1 == 0) _ _ same (
      if_Within kb ((key_code == l_shift) || (key_code == r_shift)) _ _
        (kept kb silent kb.capslock (not release) saved h)
        (if_Within kb (key_code == caps_lock) _ _
          (kept kb silent (not kb.capslock) kb.upper saved h)
          (if_Within kb (ltb 0 key_code && leb key_code fu12 && not release) _ _
            (entry_Within (get_elem? key_code_lookup_table key_code) key_code kb saved h) same)))
