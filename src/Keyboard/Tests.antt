-- ===== src/Keyboard/Tests.antt =====
-- Runs of the keyboard interrupt.
use chud_os.Base.{
  ℕ, ◌≡◌, ◌≢◌, ◌↔◌, refl, arith, false, ◌==◌, if◌then◌else◌, bit_and, none, some, List, [], ◌∷◌,
}
use chud_os.Tasks.{Kernel, waiting_process_state, set_registers}
use chud_os.Tasks.Manage.{zero_task, zero_registers, registered_task}
use chud_os.Keyboard.{
  Keyboard, Echo, silent, enter_key, key_code_lookup_table, waiting_reason_input, find_waiting_from,
  get_waiting_program, store_char, key_code_to_char, press_key, handle_keyboard_interrupt,
}
use chud_os.Keyboard.Tables.{handle_keyboard_interrupt-none}
use chud_os.Keyboard.Buffer.{ResultWithin, handle_keyboard_interrupt-Within}
use chud_os.Keyboard.Line.{
  KeyEvent, AllPlain, Delivered, chars, type_keys, handle_keyboard_interrupt-line,
}

-- Task 3 waits for input: a buffer of 64 bytes at 0x5000.
abbrev waiting : Kernel
waiting = record {
  task_manager = λ pid.
      if pid == 3
      then record (registered_task 0x40_0000 0x40_0100 4 20 0x8000 0x4000) {
        process_state = waiting_process_state;
        waiting_reason = waiting_reason_input;
        saved_registers = record zero_registers { rbx = 0x5000; rcx = 64 };
      }
      else zero_task;
  cur_pid = 1;
  pml4_physical = 0x1000;
  active_tss = zero_task.user_tss;
  space = λ cr3 a. 0;
}

abbrev empty_line : Keyboard
empty_line = record { capslock = false; upper = false; key_buffer = λ i. 0; key_buffer_pos = 0 }

-- The keys L and S.
abbrev keys : List KeyEvent
keys = (38, zero_registers, waiting) ∷ (31, zero_registers, waiting) ∷ []

keys-AllPlain : AllPlain false keys
unfolding key_code_lookup_table
keys-AllPlain = (
  record {
    in_range = omega arith;
    printable = λ e. absurd (omega arith);
    no_backspace = λ e. absurd (omega arith);
    no_tab = λ e. absurd (omega arith);
  },
  (
    record {
      in_range = omega arith;
      printable = λ e. absurd (omega arith);
      no_backspace = λ e. absurd (omega arith);
      no_tab = λ e. absurd (omega arith);
    },
    tt,
  ),
)

task_waits : get_waiting_program (set_registers 1 zero_registers waiting) ≢ 512
unfolding get_waiting_program find_waiting_from
task_waits = λ e. absurd (omega arith)

handle_keyboard_interrupt-line_example :
    (kb' : Keyboard) × (kb'' : Keyboard) × (k' : Kernel) × (type_keys keys empty_line ≡ some kb')
    × (handle_keyboard_interrupt 1 enter_key zero_registers kb' waiting ≡ some (silent, kb'', k'))
    × Delivered
        (chars false keys)
        (get_waiting_program (set_registers 1 zero_registers waiting))
        (set_registers 1 zero_registers waiting)
        kb''
        k'
handle_keyboard_interrupt-line_example =
    handle_keyboard_interrupt-line keys empty_line zero_registers waiting refl keys-AllPlain
      (omega arith) task_waits

handle_keyboard_interrupt-Within_example :
    ResultWithin
      (record empty_line { key_buffer_pos = 253 })
      (handle_keyboard_interrupt 1 15 zero_registers
        (record empty_line { key_buffer_pos = 253 })
        waiting)
handle_keyboard_interrupt-Within_example =
    handle_keyboard_interrupt-Within 1 15 zero_registers
      (record empty_line { key_buffer_pos = 253 }) waiting (omega arith)

abbrev f12 : ℕ
f12 = 85

handle_keyboard_interrupt-none_example :
    (handle_keyboard_interrupt 1 f12 zero_registers empty_line waiting ≡ none)
    ↔ ((bit_and 1 1 ≢ 0) × (f12 ≡ 85))
handle_keyboard_interrupt-none_example =
    handle_keyboard_interrupt-none 1 f12 zero_registers empty_line waiting

-- Scroll Lock, which has no character, types what belongs to the key after it.
scroll_lock_types_7 :
    press_key 70 empty_line waiting
    ≡ some (Echo.on_terminal 55, (store_char 55 empty_line).1, waiting)
unfolding press_key key_code_lookup_table store_char key_code_to_char
scroll_lock_types_7 = refl
