-- ===== src/Timer.antt =====
-- The scheduler of src/kernel/drivers/LowLevel/Timer.c: find_next_task, task_switch, ForceSwitch and
-- TimerInterrupt, and the clock arithmetic of ParseSeconds and IsLeapYear. The debug register that mirrors the
-- current PID is left out.
pub mod Schedule
pub mod Clock
pub mod Fair
pub mod Preempt
mod Tests
use chud_os.Base.{
  ℕ, zero, suc, ◌+◌, ◌-◌, ◌/◌, ◌%◌, ◌^◌, Bool, true, false, not, ◌&&◌, ◌||◌, ◌==◌, if◌then◌else◌,
  update, leb,
}
use chud_os.Tasks.{
  InterruptRegisters, Task, Kernel, set_task, set_registers, ready_process_state,
  kill_process_state, null_process_state, creation_process_state, waiting_process_state,
}
use chud_os.Tasks.Manage.{zero_task}

abbrev pub is_ready : Kernel → ℕ → Bool
is_ready k i =
    (k.task_manager i).exists && ((k.task_manager i).process_state == ready_process_state)

-- The loop of find_next_task, for `rounds` PIDs from `i` on.
unfoldable pub find_ready_from : ℕ → ℕ → Kernel → ℕ
find_ready_from zero i k = 0
find_ready_from (suc rounds) i k =
    let rest = find_ready_from rounds (suc i) k in if is_ready k i then i else rest

unfoldable pub find_next_task : ℕ → Kernel → ℕ
find_next_task cur_pid k =
    if cur_pid == 511 then 0 else find_ready_from (511 - cur_pid) (cur_pid + 1) k

-- The interrupt frame that is given is saved in the current task; the one returned is that of `pid`.
pub task_switch : ℕ → InterruptRegisters → Kernel → InterruptRegisters × Kernel
task_switch pid frame k =
    let saved = set_registers k.cur_pid frame k in
    let task = saved.task_manager pid in
    (
      task.saved_registers,
      record saved { cur_pid = pid; pml4_physical = task.base_pml4; active_tss = task.user_tss },
    )

-- A killed task is zeroed whole, which undoes the assignments to its fields before.
pub retired_task : Task → Task
retired_task t =
    if t.process_state == kill_process_state then zero_task else record t { used_ticks = 0 }

abbrev pub retire : ℕ → Kernel → Kernel
retire pid k = set_task pid (retired_task (k.task_manager pid)) k

pub force_switch : InterruptRegisters → Kernel → InterruptRegisters × Kernel
force_switch frame k =
    let retired = retire k.cur_pid k in
    let next_pid = find_next_task k.cur_pid retired in
    task_switch next_pid frame (set_registers k.cur_pid frame retired)

-- The end of a turn in TimerInterrupt. What free_task_memory does to the page tables of a killed task is
-- left to `Tasks.Release`; the address space it leaves in use is replaced by task_switch.
abbrev pub expired_task : Task → Task
expired_task t =
    if t.process_state == kill_process_state
    then record t { used_ticks = 0; process_state = null_process_state; exists = false }
    else record t { used_ticks = 0 }

abbrev pub turn_is_over : Task → Bool
turn_is_over t =
    leb t.max_ticks t.used_ticks
    || (t.process_state == kill_process_state)
    || (t.process_state == waiting_process_state)

pub timer_interrupt : InterruptRegisters → Kernel → InterruptRegisters × Kernel
timer_interrupt frame k =
    let saved = set_registers k.cur_pid frame k in
    let task = saved.task_manager k.cur_pid in
    let expired = set_task k.cur_pid (expired_task task) saved in
    if (k.task_manager k.cur_pid).process_state == creation_process_state
    then (frame, k)
    else if turn_is_over task
    then task_switch (find_next_task k.cur_pid expired) frame expired
    else (
      frame,
      set_task k.cur_pid (record task { used_ticks = (task.used_ticks + 1) % 2 ^ 8 }) saved,
    )

pub record DateData : Type 0 where
  pub second : ℕ
  pub minute : ℕ
  pub hour : ℕ
  pub day : ℕ

pub is_leap_year : ℕ → Bool
is_leap_year y = ((y % 4 == 0) && not (y % 100 == 0)) || (y % 400 == 0)

pub parse_seconds : ℕ → DateData
parse_seconds time = record {
  second = time % 60 % 2 ^ 16;
  minute = time / 60 % 60 % 2 ^ 16;
  hour = time / 60 / 60 % 60 % 2 ^ 16;
  day = time / 60 / 60 / 24 % 2 ^ 16;
}
