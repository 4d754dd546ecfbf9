-- ===== src/Syscalls/Read.antt =====
-- READ of src/kernel/drivers/Userland/syscall.c from the standard input, and the keyboard that answers it.
use mathlib.Core.Path.{subst}
use chud_os.Base.{
  ℕ, zero, suc, ◌+◌, ◌≤◌, ◌<◌, ◌==◌, ◌≡◌, ◌≢◌, sym, ap, ◌∙◌, arith, Bool, true, false, ◌&&◌, some,
  List, length, get_or, update_self, update_ne,
}
use native.Mathlib.Decide.{ℕ_discrete}
use chud_os.Tasks.{
  Task, Kernel, set_task, set_registers, waiting_process_state, ready_process_state,
  kill_process_state,
}
use chud_os.Timer.{force_switch}
use chud_os.Timer.Schedule.{force_switch-left}
use chud_os.Keyboard.{
  Keyboard, silent, enter_key, waiting_reason_input, is_upper, awaits_input, find_waiting_from,
  get_waiting_program, handle_keyboard_interrupt,
}
use chud_os.Keyboard.Line.{
  KeyEvent, AllPlain, chars, type_keys, Delivered, handle_keyboard_interrupt-line,
}
use chud_os.Syscalls.{Frame}

-- The call returns from here, without the end of handle_syscall.
pub read_stdin_call : ℕ → Frame → Kernel → Frame × Kernel
read_stdin_call cur regs k = force_switch regs (
    set_task cur
      (record (k.task_manager cur) {
        process_state = waiting_process_state;
        waiting_reason = waiting_reason_input;
      })
      k)

-- What the call leaves in the task that reads.
pub read_stdin_call-left :
    (regs : Frame) (k : Kernel)
    → (read_stdin_call k.cur_pid regs k).1.task_manager k.cur_pid
      ≡ record (k.task_manager k.cur_pid) {
        process_state = waiting_process_state;
        waiting_reason = waiting_reason_input;
        used_ticks = 0;
        saved_registers = regs;
      }
unfolding read_stdin_call
read_stdin_call-left regs k =
    let waiting : Task = record (k.task_manager k.cur_pid) {
      process_state = waiting_process_state;
      waiting_reason = waiting_reason_input;
    } in
    let self = update_self k.task_manager k.cur_pid waiting in
    force_switch-left regs (set_task k.cur_pid waiting k)
      (ap (λ (t : Task). t.process_state == kill_process_state) self)
    ∙ ap (λ (t : Task). record t { used_ticks = 0; saved_registers = regs }) self

-- The loop of GetWaitingProgram finds the first task that waits.
find_waiting_from-first :
    (rounds i p : ℕ) (k : Kernel)
    → i ≤ p
    → p < i + rounds
    → awaits_input k p ≡ true
    → ((j : ℕ) → j < p → awaits_input k j ≡ false)
    → find_waiting_from rounds i k ≡ p
unfolding find_waiting_from
find_waiting_from-first zero i p k from below waits none_before = absurd (omega arith)
find_waiting_from-first (suc rounds) i p k from below waits none_before = elim (ℕ_discrete i p) [
  | yes e ↦ rw (ap (awaits_input k) e ∙ waits) e
  | no ne ↦
      rw (none_before i (omega arith))
        (find_waiting_from-first rounds (suc i) p k (omega arith) (omega arith) waits none_before)
]

awaits : Task → Bool
awaits t =
    t.exists
    && (t.process_state == waiting_process_state)
    && (t.waiting_reason == waiting_reason_input)

awaits_input-set_registers :
    (pid i : ℕ) (regs : Frame) (k : Kernel)
    → awaits_input (set_registers pid regs k) i ≡ awaits_input k i
unfolding awaits
awaits_input-set_registers pid i regs k = elim (ℕ_discrete i pid) [
  | yes e ↦
      subst (λ j. awaits_input (set_registers pid regs k) j ≡ awaits_input k j) (sym e)
        (ap awaits
          (update_self k.task_manager pid (record (k.task_manager pid) { saved_registers = regs })))
  | no ne ↦ ap awaits (
      update_ne k.task_manager pid (record (k.task_manager pid) { saved_registers = regs }) i
        (λ e. ne (sym e)))
]

-- What follows is the state of affairs at Enter: the task still waits, another one runs, and no program with
-- a lower PID waits.
pub record StillWaits (pid : ℕ) (read later : Kernel) : Type 0 where
  pub same_task : later.task_manager pid ≡ read.task_manager pid
  pub other_runs : later.cur_pid ≢ pid
  pub first : (i : ℕ) → i < pid → awaits_input later i ≡ false

module _ (regs regs' : Frame) (k later : Kernel) (exists : (k.task_manager k.cur_pid).exists ≡ true)
    (still : StillWaits k.cur_pid (read_stdin_call k.cur_pid regs k).1 later) where
  later_task :
      (set_registers later.cur_pid regs' later).task_manager k.cur_pid
      ≡ record (k.task_manager k.cur_pid) {
        process_state = waiting_process_state;
        waiting_reason = waiting_reason_input;
        used_ticks = 0;
        saved_registers = regs;
      }
  later_task =
      update_ne later.task_manager later.cur_pid
        (record (later.task_manager later.cur_pid) { saved_registers = regs' }) k.cur_pid
        still.other_runs
      ∙ still.same_task
      ∙ read_stdin_call-left regs k

  later_waits : awaits_input (set_registers later.cur_pid regs' later) k.cur_pid ≡ true
  unfolding awaits
  later_waits = ap awaits later_task ∙ ap (λ (b : Bool). b && true && true) exists

  later_program :
      k.cur_pid < 512 → get_waiting_program (set_registers later.cur_pid regs' later) ≡ k.cur_pid
  unfolding get_waiting_program
  later_program bound =
      find_waiting_from-first 512 0 k.cur_pid (set_registers later.cur_pid regs' later)
        (omega arith) (omega arith) later_waits
        (λ j h. awaits_input-set_registers later.cur_pid j regs' later ∙ still.first j h)

-- A program that reads from the standard input gets the line that is typed next. After READ of the current
-- task, which exists and has a PID below 512, any sequence of at most 256 keys that type characters other than
-- backspace and tab, on an empty line buffer, is taken; and Enter makes the task ready and leaves the characters in
-- its buffer, as many as fit its length, if at Enter the task is as READ left it, another task runs, and no program
-- with a lower PID waits for input.
pub read_stdin_call-line :
    (regs regs' : Frame) (k later : Kernel) (es : List KeyEvent) (kb : Keyboard)
    → (k.task_manager k.cur_pid).exists ≡ true
    → k.cur_pid < 512
    → StillWaits k.cur_pid (read_stdin_call k.cur_pid regs k).1 later
    → kb.key_buffer_pos ≡ 0
    → AllPlain (is_upper kb) es
    → length (chars (is_upper kb) es) ≤ 256
    → (kb' : Keyboard) × (kb'' : Keyboard) × (k' : Kernel) × (type_keys es kb ≡ some kb')
      × (handle_keyboard_interrupt 1 enter_key regs' kb' later ≡ some (silent, kb'', k'))
      × ((k'.task_manager k.cur_pid).process_state ≡ ready_process_state)
      × ((i : ℕ)
          → i < length (chars (is_upper kb) es)
          → i < regs.rcx
          → k'.space (k.task_manager k.cur_pid).base_pml4 (regs.rbx + i)
            ≡ get_or (chars (is_upper kb) es) i 0)
read_stdin_call-line regs regs' k later es kb exists bound still start plain short =
    let saved = set_registers later.cur_pid regs' later in
    let program = later_program regs regs' k later exists still bound in
    let task = later_task regs regs' k later exists still in
    let cs = chars (is_upper kb) es in
    let (kb', kb'', k', typed, entered, delivered) =
      handle_keyboard_interrupt-line es kb regs' later start plain short
        (λ e. absurd (omega (arith, e, program))) in
    let (_, ready, bytes) = subst (λ pid. Delivered cs pid saved kb'' k') program delivered in
    (
      kb',
      kb'',
      k',
      typed,
      entered,
      ready,
      subst
          (λ (t : Task).
            (i : ℕ)
            → i < length cs
            → i < t.saved_registers.rcx
            → k'.space t.base_pml4 (t.saved_registers.rbx + i) ≡ get_or cs i 0)
          task bytes,
    )
