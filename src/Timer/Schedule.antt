-- ===== src/Timer/Schedule.antt =====
-- The scheduler's choice of a task, and the change to it.
use chud_os.Base.{
  ℕ, zero, suc, ◌+◌, ◌-◌, ◌<◌, ◌≡◌, refl, sym, ap, ◌∙◌, ◌≢◌, arith, true, false, ◌⊎◌, inl, inr,
  Bool-cases, ◌==◌, update, update_self, update_ne, ==_of_ne,
}
use native.Mathlib.Decide.{ℕ_discrete}
use chud_os.Tasks.{InterruptRegisters, Task, Kernel, set_registers, kill_process_state}
use chud_os.Timer.{
  is_ready, find_ready_from, find_next_task, task_switch, retired_task, retire, force_switch,
}

-- The first ready PID after `cur`, and PID 0 where there is none.
abbrev pub NextReady : Kernel → ℕ → ℕ → Type 0
NextReady k cur r =
    ((cur < r)
      × (r < 512)
      × (is_ready k r ≡ true)
      × ((j : ℕ) → cur < j → j < r → is_ready k j ≡ false))
    ⊎ ((r ≡ 0) × ((j : ℕ) → cur < j → j < 512 → is_ready k j ≡ false))

extend :
    (k : Kernel) (cur i : ℕ)
    → ((j : ℕ) → cur < j → j < i → is_ready k j ≡ false)
    → is_ready k i ≡ false
    → (j : ℕ) → cur < j
    → j < suc i
    → is_ready k j ≡ false
extend k cur i below here j h h' = elim (ℕ_discrete j i) [
  | yes e ↦ rw e here
  | no ne ↦ below j h (omega arith)
]

find_ready_from-NextReady :
    (k : Kernel) (cur rounds i : ℕ)
    → cur < i
    → i + rounds ≡ 512
    → ((j : ℕ) → cur < j → j < i → is_ready k j ≡ false)
    → NextReady k cur (find_ready_from rounds i k)
unfolding find_ready_from
find_ready_from-NextReady k cur zero i past end below =
    inr (refl, λ j h h'. below j h (omega arith))
find_ready_from-NextReady k cur (suc rounds) i past end below = elim (Bool-cases (is_ready k i)) [
  | inl ready ↦ rw ready (inl (past, omega arith, ready, below))
  | inr busy ↦ rw busy (
      find_ready_from-NextReady k cur rounds (suc i) (omega arith) (omega arith)
        (extend k cur i below busy))
]

-- find_next_task returns the first PID after the current one whose task exists and is ready, and
-- PID 0, ready or not, where there is none up to 511.
pub find_next_task-NextReady :
    (k : Kernel) (cur : ℕ) → cur < 512 → NextReady k cur (find_next_task cur k)
unfolding find_next_task
find_next_task-NextReady k cur h = elim (ℕ_discrete cur 511) [
  | yes e ↦ rw e (inr (refl, λ j h h'. absurd (omega arith)))
  | no ne ↦ rw (==_of_ne cur 511 ne) (
      find_ready_from-NextReady k cur (511 - cur) (cur + 1) (omega arith) (omega arith)
        (λ j h h'. absurd (omega arith)))
]

-- The task of the first of two switches, after both.
back_task :
    (other : ℕ) (frame frame' : InterruptRegisters) (k : Kernel)
    → other ≢ k.cur_pid
    → (set_registers other frame' (task_switch other frame k).1).task_manager k.cur_pid
      ≡ record (k.task_manager k.cur_pid) { saved_registers = frame }
unfolding task_switch
back_task other frame frame' k ne =
    let first =
      update k.task_manager k.cur_pid
        (record (k.task_manager k.cur_pid) { saved_registers = frame }) in
    update_ne first other (record (first other) { saved_registers = frame' }) k.cur_pid ne
    ∙ update_self k.task_manager k.cur_pid
        (record (k.task_manager k.cur_pid) { saved_registers = frame })

-- A task that is switched away from, to another one, and then switched back to, with whatever
-- frame the other one has by then, gets back its frame, its PID, its address space and its task
-- state segment.
pub task_switch-back :
    (other : ℕ) (frame frame' : InterruptRegisters) (k : Kernel)
    → other ≢ k.cur_pid
    → ((task_switch k.cur_pid frame' (task_switch other frame k).1).0 ≡ frame)
      × ((task_switch k.cur_pid frame' (task_switch other frame k).1).1.cur_pid ≡ k.cur_pid)
      × ((task_switch k.cur_pid frame' (task_switch other frame k).1).1.pml4_physical
          ≡ (k.task_manager k.cur_pid).base_pml4)
      × ((task_switch k.cur_pid frame' (task_switch other frame k).1).1.active_tss
          ≡ (k.task_manager k.cur_pid).user_tss)
unfolding task_switch
task_switch-back other frame frame' k ne =
    let task = back_task other frame frame' k ne in
    (
      ap (λ (t : Task). t.saved_registers) task,
      refl,
      ap (λ (t : Task). t.base_pml4) task,
      ap (λ (t : Task). t.user_tss) task,
    )

-- ForceSwitch runs the task that find_next_task chooses once the current one is retired. Where that is
-- another task, its saved frame, its PID and its address space are the ones in use, and the frame of
-- the task that was left is saved.
pub force_switch-next :
    (frame : InterruptRegisters) (k : Kernel)
    → find_next_task k.cur_pid (retire k.cur_pid k) ≢ k.cur_pid
    → ((force_switch frame k).0
        ≡ (k.task_manager (find_next_task k.cur_pid (retire k.cur_pid k))).saved_registers)
      × ((force_switch frame k).1.cur_pid ≡ find_next_task k.cur_pid (retire k.cur_pid k))
      × ((force_switch frame k).1.pml4_physical
          ≡ (k.task_manager (find_next_task k.cur_pid (retire k.cur_pid k))).base_pml4)
      × (((force_switch frame k).1.task_manager k.cur_pid).saved_registers ≡ frame)
unfolding force_switch task_switch
force_switch-next frame k ne =
    let cur = k.cur_pid in
    let retired = retire cur k in
    let next = find_next_task cur retired in
    let once = set_registers cur frame retired in
    let twice = record (once.task_manager cur) { saved_registers = frame } in
    let apart : cur ≢ next = λ e. ne (sym e) in
    let task : (set_registers cur frame once).task_manager next ≡ k.task_manager next =
      update_ne once.task_manager cur twice next apart
      ∙ update_ne retired.task_manager cur
          (record (retired.task_manager cur) { saved_registers = frame }) next apart
      ∙ update_ne k.task_manager cur (retired_task (k.task_manager cur)) next apart in
    (
      ap (λ (t : Task). t.saved_registers) task,
      refl,
      ap (λ (t : Task). t.base_pml4) task,
      ap (λ (t : Task). t.saved_registers) (update_self once.task_manager cur twice),
    )

-- What ForceSwitch leaves in the task that was the current one, if it is not killed.
pub force_switch-left :
    (regs : InterruptRegisters) (k : Kernel)
    → ((k.task_manager k.cur_pid).process_state == kill_process_state) ≡ false
    → (force_switch regs k).1.task_manager k.cur_pid
      ≡ record (k.task_manager k.cur_pid) { used_ticks = 0; saved_registers = regs }
unfolding force_switch task_switch retired_task
force_switch-left regs k alive =
    let cur = k.cur_pid in
    let with_regs : Task → Task = λ t. record t { saved_registers = regs } in
    let retired = retire cur k in
    let once = set_registers cur regs retired in
    update_self once.task_manager cur (with_regs (once.task_manager cur))
    ∙ ap with_regs (update_self retired.task_manager cur (with_regs (retired.task_manager cur)))
    ∙ ap with_regs (update_self k.task_manager cur (retired_task (k.task_manager cur)))
    ∙ rw alive refl
