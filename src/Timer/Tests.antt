-- ===== src/Timer/Tests.antt =====
-- Runs of the scheduler.
use chud_os.Base.{ℕ, zero, suc, ◌+◌, ◌*◌, ◌≤◌, ◌<◌, ◌≡◌, refl, ◌∙◌, arith, true, ltb, if◌then◌else◌}
use chud_os.Tasks.{Kernel, ready_process_state}
use chud_os.Tasks.Manage.{zero_task, zero_registers, registered_task}
use chud_os.Timer.{is_ready, find_next_task, force_switch}
use chud_os.Timer.Fair.{Switches, is_ready-force_switch, force_switch-reaches}
use chud_os.Timer.Preempt.{ticks, timer_interrupt-preempts}

-- Tasks 0, 1 and 2 are ready.
abbrev three_tasks : Kernel
three_tasks = record {
  task_manager = λ pid.
      if ltb pid 3
      then record (registered_task 0x40_0000 0x40_0100 4 20 0x8000 (0x1000 * (pid + 1))) {
        process_state = ready_process_state;
      }
      else zero_task;
  cur_pid = 2;
  pml4_physical = 0x3000;
  active_tss = zero_task.user_tss;
  space = λ cr3 a. 0;
}

-- The kernels of a run in which ForceSwitch is called again and again.
switched : ℕ → Kernel
switched zero = three_tasks
switched (suc n) = (force_switch zero_registers (switched n)).1

switched-Switches : Switches switched (λ n. zero_registers)
unfolding switched
switched-Switches n = refl

ready_one : (n : ℕ) → is_ready (switched n) 1 ≡ true
unfolding switched
ready_one zero = refl
ready_one (suc n) = is_ready-force_switch zero_registers (switched n) 1 ∙ ready_one n

start_bound : (switched 0).cur_pid < 512
unfolding switched
start_bound = omega arith

force_switch-reaches_example : (m : ℕ) × (5 < m) × (m ≤ 5 + 512) × ((switched m).cur_pid ≡ 1)
force_switch-reaches_example =
    force_switch-reaches switched (λ n. zero_registers) 1 5 switched-Switches start_bound
      (omega arith) ready_one

timer_interrupt-preempts_example :
    ((n : ℕ) → n ≤ 20 → (ticks n (λ i. zero_registers) three_tasks).cur_pid ≡ 2)
    × ((ticks 21 (λ i. zero_registers) three_tasks).cur_pid ≡ find_next_task 2 three_tasks)
timer_interrupt-preempts_example =
    timer_interrupt-preempts (λ i. zero_registers) three_tasks refl (omega arith) (omega arith)
