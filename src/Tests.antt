-- ===== src/Tests.antt =====
-- The tasks, the signals and the scheduler at concrete inputs: two tasks, of which task 0 runs.
use chud_os.Base.{
  false, some, inl, [], ◌∷◌, length, get_or, ℕ, zero, suc, ◌+◌, ◌*◌, ◌<◌, ◌≤◌, ◌^◌, List, ◌≡◌, refl,
  ◌≢◌, ◌↔◌, true, ◌==◌, if◌then◌else◌, ltb, arith,
}
use mathlib.Core.Bool.{false≢true}
use chud_os.Tasks.{Kernel, set_registers, ready_process_state}
use chud_os.Tasks.Access.{mem_access_ok, IsAccepted, IsLaidOut, mem_access_ok_iff}
use chud_os.Tasks.Stack.{task_stack_push}
use chud_os.Tasks.Stack.Effects.{registers}
use chud_os.Tasks.Manage.{zero_task, zero_registers, registered_task}
use chud_os.Signals.{push_all, establish_signal_stack, signal_return}
use chud_os.Signals.Space.{Resident}
use chud_os.Signals.Restore.{restored}
use chud_os.Signals.RoundTrip.{Handled, signal_return-establish}
use chud_os.Timer.{find_ready_from, find_next_task, task_switch, retire, force_switch}
use chud_os.Interrupts.{IdtEntry}
use chud_os.Terminal.{Terminal, user_terminal, zeros, Ownership}
use chud_os.Terminal.Bounds.{IsTerminal, IsClean}
use chud_os.Terminal.Refresh.{virtual_print}
use chud_os.Terminal.Refresh.Kept.{Drawable, AllDrawable, virtual_print-Drawable}
use chud_os.Text.{Buffer}
use chud_os.Text.Number.{count_digits, int_to_char_array, int_to_char_array_hex}
use chud_os.Text.Number.Decimal.{Converted, int_to_char_array-Converted}
use chud_os.Text.Number.Hex.{HexText, int_to_char_array_hex-HexText}
use chud_os.Console.{Screen, Text, print}
use chud_os.Console.Cursor.{OnScreen, print-OnScreen}
use chud_os.Timer.Schedule.{
  NextReady, find_next_task-NextReady, task_switch-back, force_switch-next,
}
use chud_os.Dma.{transfer_to, transfer_from}
use chud_os.Dma.Programmed.{
  Channel, IsProgrammed, channel_ports, receive_all, transfer-IsProgrammed,
}
use chud_os.Floppy.{Controller, Driver}
use chud_os.Floppy.Geometry.{Chs, lba_to_chs, chs_to_lba, chs_to_lba-lba_to_chs}
use chud_os.Tasks.Arguments.{push_arguments}
use chud_os.Tasks.Arguments.Layout.{size_of, AreAt, push_arguments-layout}
use chud_os.Tasks.Bytes.{load64}
use chud_os.Tasks.{InterruptRegisters}
use chud_os.Syscalls.{wait_call, leave, set_waiting}
use chud_os.Syscalls.Wait.{next_after_wait, leave-wait_call}

abbrev two_tasks : Kernel
two_tasks = record {
  task_manager = λ pid.
      if ltb pid 2
      then record (registered_task 0x40_0000 (0x40_0100 + pid) 4 20 0x8000 (0x1000 * (pid + 1))) {
        process_id = pid;
        process_state = ready_process_state;
      }
      else zero_task;
  cur_pid = 0;
  pml4_physical = 0x1000;
  active_tss = zero_task.user_tss;
  space = λ cr3 a. 0;
}

-- A handler of task 1 that changes `rax` and moves its stack.
abbrev handled : Kernel
handled =
    let k = establish_signal_stack 1 two_tasks in
    set_registers 1 (record (registers 1 k) { rax = 77; rsp = 0x100 }) k

handled-Handled : Handled 1 0x2000 0x8000 (establish_signal_stack 1 two_tasks) handled
unfolding establish_signal_stack push_all task_stack_push
handled-Handled = record { exists = refl; base_pml4 = refl; r12 = refl; frame = λ p h h'. refl }

handled-Resident : Resident 1 (1 == handled.cur_pid) handled
unfolding establish_signal_stack push_all task_stack_push
handled-Resident = λ e. absurd (false≢true e)

signal_return-establish_example :
    registers 1 (signal_return 1 handled) ≡ restored (registers 1 two_tasks) (registers 1 handled)
signal_return-establish_example =
    signal_return-establish 1 two_tasks handled refl (λ e. absurd (false≢true e)) (omega arith)
      (omega arith) handled-Handled handled-Resident

task_switch-back_example :
    ((task_switch 0 zero_registers
        (task_switch 1 (record zero_registers { rax = 5 }) two_tasks).1).0
      ≡ record zero_registers { rax = 5 })
    × ((task_switch 0 zero_registers
          (task_switch 1 (record zero_registers { rax = 5 }) two_tasks).1).1.cur_pid
        ≡ 0)
    × ((task_switch 0 zero_registers
          (task_switch 1 (record zero_registers { rax = 5 }) two_tasks).1).1.pml4_physical
        ≡ 0x1000)
    × ((task_switch 0 zero_registers
          (task_switch 1 (record zero_registers { rax = 5 }) two_tasks).1).1.active_tss
        ≡ zero_task.user_tss)
task_switch-back_example =
    task_switch-back 1 (record zero_registers { rax = 5 }) zero_registers two_tasks
      (λ e. absurd (omega arith))

next_is_one : find_next_task 0 (retire 0 two_tasks) ≢ 0
unfolding find_next_task find_ready_from
next_is_one = λ e. absurd (omega arith)

force_switch-next_example :
    ((force_switch zero_registers two_tasks).0
      ≡ (two_tasks.task_manager (find_next_task 0 (retire 0 two_tasks))).saved_registers)
    × ((force_switch zero_registers two_tasks).1.cur_pid ≡ find_next_task 0 (retire 0 two_tasks))
    × ((force_switch zero_registers two_tasks).1.pml4_physical
        ≡ (two_tasks.task_manager (find_next_task 0 (retire 0 two_tasks))).base_pml4)
    × (((force_switch zero_registers two_tasks).1.task_manager 0).saved_registers ≡ zero_registers)
force_switch-next_example = force_switch-next zero_registers two_tasks next_is_one

find_next_task-NextReady_example : NextReady two_tasks 0 (find_next_task 0 two_tasks)
find_next_task-NextReady_example = find_next_task-NextReady two_tasks 0 (omega arith)

task_0-IsLaidOut : IsLaidOut (two_tasks.task_manager 0).memory_data
task_0-IsLaidOut = record {
  code = omega arith;
  code_page = refl;
  stack = omega arith;
  stack_page = refl;
  stack_low = omega arith;
  kernel_stack = omega arith;
  kernel_stack_page = refl;
  kernel_stack_low = omega arith;
}

mem_access_ok_iff_example :
    (mem_access_ok 0x40_0001 0 two_tasks ≡ true)
    ↔ IsAccepted (two_tasks.task_manager 0).memory_data 0x40_0001
mem_access_ok_iff_example = mem_access_ok_iff two_tasks 0 0x40_0001 task_0-IsLaidOut

below_two : (j : ℕ) → j < 2 → (two_tasks.task_manager j).exists ≡ true
below_two zero h = refl
below_two (suc zero) h = refl
below_two (suc (suc j)) h = absurd (omega arith)

abbrev blank : Buffer
blank = 0 ∷ 0 ∷ 0 ∷ 0 ∷ 0 ∷ 0 ∷ 0 ∷ 0 ∷ []

int_to_char_array-Converted_example :
    (buffer' : Buffer) × (int_to_char_array blank 1234 blank 8 0 ≡ some buffer')
    × Converted 1234 blank buffer'
unfolding count_digits
int_to_char_array-Converted_example =
    int_to_char_array-Converted blank 1234 0 blank (λ e. absurd (omega arith)) (omega arith)
      (omega arith) (omega arith)

int_to_char_array_hex-HexText_example :
    (buffer' : Buffer) × (int_to_char_array_hex blank 0xbeef blank 8 0 ≡ some buffer')
    × HexText 0xbeef blank buffer'
unfolding count_digits
int_to_char_array_hex-HexText_example =
    int_to_char_array_hex-HexText blank 0xbeef 0 blank (λ e. absurd (omega arith)) (omega arith)
      (omega arith) (omega arith)

abbrev blank_screen : Screen
blank_screen = record {
  cur_x = 79;
  cur_y = 23;
  snapshot_x = 0;
  snapshot_y = 0;
  color = 15;
  byte = λ p. 0;
}

abbrev greeting : Text
greeting = 72 ∷ 105 ∷ 32 ∷ 8 ∷ 10 ∷ []

greeting-tabless : (j : ℕ) → get_or greeting j 0 ≢ 9
greeting-tabless zero = λ e. absurd (omega arith)
greeting-tabless (suc zero) = λ e. absurd (omega arith)
greeting-tabless (suc (suc zero)) = λ e. absurd (omega arith)
greeting-tabless (suc (suc (suc zero))) = λ e. absurd (omega arith)
greeting-tabless (suc (suc (suc (suc zero)))) = λ e. absurd (omega arith)
greeting-tabless (suc (suc (suc (suc (suc j))))) = λ e. absurd (omega arith)

print-OnScreen_example : OnScreen (print greeting 0 blank_screen)
print-OnScreen_example =
    print-OnScreen greeting 0 blank_screen greeting-tabless
      (record { column = omega arith; row = omega arith; edge = omega arith })

abbrev empty_gate : IdtEntry
empty_gate = record {
  offset_low = 0;
  selector = 0;
  ist = 0;
  flags = 0;
  offset_middle = 0;
  offset_high = 0;
  zero_field = 0;
}

user_terminal-IsTerminal : IsTerminal (user_terminal 0 true)
unfolding user_terminal
user_terminal-IsTerminal = record {
  window = omega arith;
  least = omega arith;
  size = omega arith;
  position = omega arith;
}

zeros-IsClean : (n : ℕ) → IsClean (zeros n)
zeros-IsClean zero = tt
zeros-IsClean (suc n) = ((λ e. absurd (omega arith)), zeros-IsClean n)

user_terminal-Drawable : Drawable 81 (user_terminal 0 true)
unfolding user_terminal
user_terminal-Drawable = record {
  terminal = user_terminal-IsTerminal;
  size = refl;
  clean = zeros-IsClean 2000;
  width = omega arith;
}

abbrev message : Buffer
message = 72 ∷ 105 ∷ 10 ∷ []

message-IsClean : IsClean message
message-IsClean =
    ((λ e. absurd (omega arith)), ((λ e. absurd (omega arith)), ((λ e. absurd (omega arith)), tt)))

virtual_print-Drawable_example :
    (ts' : List Terminal) × (s' : Screen) × (virtual_print 81 0 message
        (user_terminal 0 true ∷ [])
        blank_screen
      ≡ some (ts', s'))
    × AllDrawable 81 ts'
    × (length ts' ≡ 1)
virtual_print-Drawable_example =
    virtual_print-Drawable 81 0 message (user_terminal 0 true ∷ []) blank_screen (omega arith)
      message-IsClean (user_terminal-Drawable, tt)

abbrev owned : Ownership
owned = record { screen_owner = 3; tty = true }

accessible : mem_access_ok 0x40_0001 0 two_tasks ≡ true
accessible =
    (mem_access_ok_iff two_tasks 0 0x40_0001 task_0-IsLaidOut).1
      (inl ((omega arith, omega arith), λ e. absurd (omega arith)))

-- A channel in some state, before a transfer of a sector at 0x12345.
abbrev any_channel : Channel
any_channel = record {
  high_next = true;
  low_address = 1;
  high_address = 2;
  page = 3;
  low_count = 4;
  high_count = 5;
  masked = false;
  mode = 0;
}

transfer-IsProgrammed_example :
    (((transfer_to 2 0x12345 512 true 1).0 ≡ 0)
      × IsProgrammed 0x12345 512 1 true 1
          (channel_ports 2)
          (receive_all (channel_ports 2) ((transfer_to 2 0x12345 512 true 1).1) any_channel))
    × (((transfer_from 2 0x12345 512 true 1).0 ≡ 0)
        × IsProgrammed 0x12345 512 2 true 1
            (channel_ports 2)
            (receive_all (channel_ports 2) ((transfer_from 2 0x12345 512 true 1).1) any_channel))
transfer-IsProgrammed_example =
    transfer-IsProgrammed 0x12345 512 true 1 any_channel (omega arith) (omega arith) (omega arith) 2
      (omega arith) (omega arith)

-- Sector 100 of a disk with two heads and 18 sectors a track.
chs_to_lba-lba_to_chs_example :
    (x : Chs) × (lba_to_chs 2 18 100 ≡ some x)
    × (x.cylinder < 0x100)
    × (x.head < 2)
    × (1 ≤ x.sector)
    × (x.sector ≤ 18)
    × (chs_to_lba 2 18 x ≡ 100)
chs_to_lba-lba_to_chs_example =
    chs_to_lba-lba_to_chs 2 18 100 (omega arith) (omega arith) (omega arith)

-- A controller that is always ready, has no errors, and delivers sevens.
abbrev ready_controller : Controller
ready_controller = record {
  State = ℕ;
  out = λ port value s. s;
  read_port = λ port s. ((if port == 0x3F4 then 0xC0 else 0), s);
  interrupt = λ bounce s. some ((λ p. 7), s);
  ticks = λ s. 0;
}

abbrev idle_driver : Driver ready_controller
idle_driver = record {
  controller = 0;
  bounce = λ p. 0;
  bounce_physical = 0x10000;
  bounce_low = 0x10000;
  memory = λ p. 1;
  results = λ i. 0;
  sector_max = 18;
  head_count = 2;
}

-- The arguments "ab" and "c".
push_arguments-layout_example :
    (pointers : List ℕ) × (top : ℕ) × (after : ℕ → ℕ) × (push_arguments
        ((97 ∷ 98 ∷ []) ∷ (99 ∷ []) ∷ [])
        (0x1000, λ p. 0)
      ≡ (top, after))
    × (top + (size_of ((97 ∷ 98 ∷ []) ∷ (99 ∷ []) ∷ []) + 8 * (2 + 2)) ≡ 0x1000)
    × (load64 top after ≡ 2)
    × ((i : ℕ) → i < 2 → load64 (top + 8 * suc i) after ≡ get_or pointers i 0)
    × (load64 (top + 8 * suc 2) after ≡ 0)
    × AreAt top pointers ((97 ∷ 98 ∷ []) ∷ (99 ∷ []) ∷ []) after
    × ((p : ℕ) → 0x1000 ≤ p → p < 2 ^ 64 → after p ≡ 0)
push_arguments-layout_example =
    push_arguments-layout ((97 ∷ 98 ∷ []) ∷ (99 ∷ []) ∷ []) 0x1000 (λ p. 0) (omega arith)
      (omega arith)

-- Task 0 waits for task 1, which is its child.
abbrev wait_frame : InterruptRegisters
wait_frame = record zero_registers { rbx = 1; rax = 6 }

one_after_wait : next_after_wait 0 wait_frame two_tasks ≢ 0
unfolding find_next_task find_ready_from
one_after_wait = omega arith

leave-wait_call_example :
    ((leave 0 (wait_call 0 wait_frame two_tasks)).0
      ≡ ((set_waiting 0 0 two_tasks).task_manager
          (next_after_wait 0 wait_frame two_tasks)).saved_registers)
    × (((leave 0 (wait_call 0 wait_frame two_tasks)).1.task_manager 0).saved_registers
        ≡ ((set_waiting 0 0 two_tasks).task_manager
            (next_after_wait 0 wait_frame two_tasks)).saved_registers)
leave-wait_call_example = leave-wait_call wait_frame two_tasks refl one_after_wait
