-- ===== src/Syscalls/Tests.antt =====
-- Runs of the system calls.
use chud_os.Base.{
  ℕ, zero, suc, ◌+◌, ◌/◌, ◌%◌, ◌^◌, ◌<◌, ◌≡◌, refl, arith, false, true, some, List, [], ◌∷◌, get_or,
  update, update_self, if◌then◌else◌, ltb,
}
use chud_os.Tasks.{InterruptRegisters, Kernel, ready_process_state}
use chud_os.Tasks.Manage.{zero_task, zero_registers, registered_task}
use chud_os.Keyboard.{
  Keyboard, silent, enter_key, key_code_lookup_table, key_code_lookup_table_shift,
  handle_keyboard_interrupt, awaits_input,
}
use chud_os.Keyboard.Line.{KeyEvent, AllPlain, chars, type_keys}
use chud_os.Memory.Walk.{entry_address}
use chud_os.Memory.Alloc.{page_table_entry}
use chud_os.Syscalls.Fork.{cow_entry, shared_page}
use chud_os.Syscalls.Fork.Shared.{cow_entry-shared}
use chud_os.Syscalls.Read.{StillWaits, read_stdin_call, read_stdin_call-line}

-- Tasks 0 and 1 are ready, and task 1 is current.
abbrev reader : Kernel
reader = record {
  task_manager = λ pid.
      if ltb pid 2
      then record (registered_task 0x40_0000 0x40_0100 4 20 0x8000 0x4000) {
        process_state = ready_process_state;
      }
      else zero_task;
  cur_pid = 1;
  pml4_physical = 0x4000;
  active_tss = zero_task.user_tss;
  space = λ cr3 a. 0;
}

abbrev call_frame : InterruptRegisters
call_frame = record zero_registers { rbx = 0x5000; rcx = 16 }

-- At Enter, task 0 runs.
abbrev at_enter : Kernel
at_enter = record reader {
  task_manager =
      update reader.task_manager 1 ((read_stdin_call 1 call_frame reader).1.task_manager 1);
  cur_pid = 0;
}

below_one : (i : ℕ) → i < 1 → awaits_input at_enter i ≡ false
below_one zero h = refl
below_one (suc i) h = absurd (omega arith)

at_enter-StillWaits : StillWaits 1 (read_stdin_call 1 call_frame reader).1 at_enter
at_enter-StillWaits = record {
  same_task =
      update_self reader.task_manager 1 ((read_stdin_call 1 call_frame reader).1.task_manager 1);
  other_runs = λ e. absurd (omega arith);
  first = below_one;
}

abbrev empty_line : Keyboard
empty_line = record { capslock = false; upper = true; key_buffer = λ i. 0; key_buffer_pos = 0 }

-- Shift and the key 1.
abbrev keys : List KeyEvent
keys = (2, zero_registers, reader) ∷ []

keys-AllPlain : AllPlain true keys
unfolding key_code_lookup_table key_code_lookup_table_shift
keys-AllPlain = (
  record {
    in_range = omega arith;
    printable = λ e. absurd (omega arith);
    no_backspace = λ e. absurd (omega arith);
    no_tab = λ e. absurd (omega arith);
  },
  tt,
)

read_stdin_call-line_example :
    (kb' : Keyboard) × (kb'' : Keyboard) × (k' : Kernel) × (type_keys keys empty_line ≡ some kb')
    × (handle_keyboard_interrupt 1 enter_key zero_registers kb' at_enter ≡ some (silent, kb'', k'))
    × ((k'.task_manager 1).process_state ≡ ready_process_state)
    × ((i : ℕ) → i < 1 → i < 16 → k'.space 0x4000 (0x5000 + i) ≡ get_or (chars true keys) i 0)
read_stdin_call-line_example =
    read_stdin_call-line call_frame zero_registers reader at_enter keys empty_line refl
      (omega arith) at_enter-StillWaits refl keys-AllPlain (omega arith)

abbrev user_entry : ℕ
user_entry = 0x12_3007

cow_entry-shared_example :
    (entry_address (cow_entry user_entry) ≡ entry_address user_entry)
    × (cow_entry user_entry % 2 ≡ user_entry % 2)
    × (cow_entry user_entry / 2 % 2 ≡ 0)
    × (cow_entry user_entry / 2 ^ 9 % 2 ≡ 1)
    × (page_table_entry (shared_page 0x40_0000 (cow_entry user_entry)) ≡ cow_entry user_entry)
cow_entry-shared_example = cow_entry-shared 0x40_0000 user_entry (omega arith)
