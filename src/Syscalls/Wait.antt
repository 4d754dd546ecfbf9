-- ===== src/Syscalls/Wait.antt =====
-- What WAIT leaves in the task that waits.
use chud_os.Base.{ℕ, ◌==◌, ==_iff, ◌≡◌, ◌≢◌, ap, ◌∙◌, true, update_self}
use chud_os.Tasks.{InterruptRegisters, Task, Kernel}
use chud_os.Timer.{find_next_task, retire, force_switch}
use chud_os.Timer.Schedule.{force_switch-next}
use chud_os.Syscalls.{set_waiting, wait_call, leave}

-- The task that runs after the task `cur` has begun to wait.
abbrev pub next_after_wait : ℕ → InterruptRegisters → Kernel → ℕ
next_after_wait cur regs k = find_next_task cur (retire cur (set_waiting cur regs.rdx k))

-- WAIT of the current task for a child of its own, where another task is next: the frame is then that of the next task,
-- and so are the registers that are saved for the task that waits, as the end of the system call saves the frame once
-- more, after the switch.
pub leave-wait_call :
    (regs : InterruptRegisters) (k : Kernel)
    → (k.task_manager regs.rbx).owner_pid ≡ k.cur_pid
    → next_after_wait k.cur_pid regs k ≢ k.cur_pid
    → ((leave k.cur_pid (wait_call k.cur_pid regs k)).0
        ≡ ((set_waiting k.cur_pid regs.rdx k).task_manager
            (next_after_wait k.cur_pid regs k)).saved_registers)
      × (((leave k.cur_pid (wait_call k.cur_pid regs k)).1.task_manager k.cur_pid).saved_registers
          ≡ ((set_waiting k.cur_pid regs.rdx k).task_manager
              (next_after_wait k.cur_pid regs k)).saved_registers)
unfolding leave wait_call
leave-wait_call regs k child other =
    let owned : ((k.task_manager regs.rbx).owner_pid == k.cur_pid) ≡ true = (==_iff _ _).1 child in
    let switched = force_switch regs (set_waiting k.cur_pid regs.rdx k) in
    let (frame, pid, root, saved) =
      force_switch-next regs (set_waiting k.cur_pid regs.rdx k) other in
    rw owned (
      frame,
      ap (λ (t : Task). t.saved_registers)
            (update_self switched.1.task_manager k.cur_pid
              (record (switched.1.task_manager k.cur_pid) { saved_registers = switched.0 }))
          ∙ frame,
    )
