-- ===== src/Timer/Preempt.antt =====
-- How long TimerInterrupt of src/kernel/drivers/LowLevel/Timer.c leaves a task running.
use mathlib.Core.Path.{subst}
use chud_os.Base.{
  ℕ, zero, suc, ◌+◌, ◌-◌, ◌%◌, ◌^◌, ◌≤◌, ◌<◌, ◌≡◌, refl, sym, ap, ◌∙◌, arith, true, false,
  if◌then◌else◌, update_self, ◌==◌,
}
use native.Mathlib.Decide.{ℕ_discrete}
use chud_os.Tasks.{InterruptRegisters, Task, Kernel, set_registers, set_task, ready_process_state}
use chud_os.Timer.{
  is_ready, find_ready_from, find_next_task, task_switch, turn_is_over, timer_interrupt,
}

-- The kernel after a number of timer interrupts, each with its own frame.
pub ticks : ℕ → (ℕ → InterruptRegisters) → Kernel → Kernel
ticks zero frames k = k
ticks (suc n) frames k = (timer_interrupt (frames n) (ticks n frames k)).1

abbrev SameReady : Kernel → Kernel → Type 0
SameReady k k' = (i : ℕ) → is_ready k i ≡ is_ready k' i

find_ready_from-SameReady :
    (k k' : Kernel) (rounds i : ℕ)
    → SameReady k k'
    → find_ready_from rounds i k ≡ find_ready_from rounds i k'
unfolding find_ready_from
find_ready_from-SameReady k k' zero i same = refl
find_ready_from-SameReady k k' (suc rounds) i same =
    ground (arith, same i, find_ready_from-SameReady k k' rounds (suc i) same)

find_next_task-SameReady :
    (k k' : Kernel) (cur : ℕ) → SameReady k k' → find_next_task cur k ≡ find_next_task cur k'
unfolding find_next_task
find_next_task-SameReady k k' cur same =
    ap (λ (r : ℕ). if cur == 511 then 0 else r)
      (find_ready_from-SameReady k k' (511 - cur) (cur + 1) same)

set_task-SameReady :
    (pid : ℕ) (t : Task) (k : Kernel)
    → t.exists ≡ (k.task_manager pid).exists
    → t.process_state ≡ (k.task_manager pid).process_state
    → SameReady (set_task pid t k) k
set_task-SameReady pid t k e s i = ground (arith, ℕ_discrete i pid)

-- What a tick within the turn of a ready task does.
record TickedBy (n : ℕ) (k k' : Kernel) : Type 0 where
  same_pid : k'.cur_pid ≡ k.cur_pid
  counted : (k'.task_manager k.cur_pid).used_ticks ≡ (k.task_manager k.cur_pid).used_ticks + n
  same_limit : (k'.task_manager k.cur_pid).max_ticks ≡ (k.task_manager k.cur_pid).max_ticks
  same_state : (k'.task_manager k.cur_pid).process_state ≡ (k.task_manager k.cur_pid).process_state
  same_ready : SameReady k' k

within :
    (t : Task)
    → t.process_state ≡ ready_process_state
    → t.used_ticks < t.max_ticks
    → turn_is_over t ≡ false
within t ready less = ground (arith, ready, less)

over : (t : Task) → t.max_ticks ≤ t.used_ticks → turn_is_over t ≡ true
over t less = ground (arith, less)

abbrev counted_task : InterruptRegisters → Task → Task
counted_task frame t = record t { saved_registers = frame; used_ticks = (t.used_ticks + 1) % 2 ^ 8 }

-- A tick within the turn counts, and a tick at its end switches.
timer_interrupt-within :
    (frame : InterruptRegisters) (k : Kernel)
    → (k.task_manager k.cur_pid).process_state ≡ ready_process_state
    → turn_is_over (k.task_manager k.cur_pid) ≡ false
    → timer_interrupt frame k ≡ (
      frame,
      set_task k.cur_pid
          (counted_task frame (k.task_manager k.cur_pid))
          (set_registers k.cur_pid frame k),
    )
unfolding timer_interrupt
timer_interrupt-within frame k ready more =
    let task = k.task_manager k.cur_pid in
    let saved = record task { saved_registers = frame } in
    rw (ap (λ s. s == 1) ready) (rw (update_self k.task_manager k.cur_pid saved, more) refl)

timer_interrupt-over :
    (frame : InterruptRegisters) (k : Kernel)
    → (k.task_manager k.cur_pid).process_state ≡ ready_process_state
    → turn_is_over (k.task_manager k.cur_pid) ≡ true
    → (timer_interrupt frame k).1.cur_pid
      ≡ find_next_task k.cur_pid (
          set_task k.cur_pid
            (record (k.task_manager k.cur_pid) { saved_registers = frame; used_ticks = 0 })
            (set_registers k.cur_pid frame k))
unfolding timer_interrupt task_switch
timer_interrupt-over frame k ready done =
    let task = k.task_manager k.cur_pid in
    let saved = record task { saved_registers = frame } in
    rw (ap (λ s. s == 1) ready)
      (rw (update_self k.task_manager k.cur_pid saved, done) (rw (ap (λ s. s == 4) ready) refl))

counted_task-SameReady :
    (frame : InterruptRegisters) (k : Kernel)
    → SameReady
        (set_task k.cur_pid
          (counted_task frame (k.task_manager k.cur_pid))
          (set_registers k.cur_pid frame k))
        k
counted_task-SameReady frame k i =
    let task = k.task_manager k.cur_pid in
    let saved = record task { saved_registers = frame } in
    let self = update_self k.task_manager k.cur_pid saved in
    set_task-SameReady k.cur_pid (counted_task frame task) (set_registers k.cur_pid frame k)
      (sym (ap (λ (t : Task). t.exists) self)) (sym (ap (λ (t : Task). t.process_state) self)) i
    ∙ set_task-SameReady k.cur_pid saved k refl refl i

TickedBy-trans :
    (n : ℕ) (k k' k'' : Kernel) → TickedBy n k k' → TickedBy 1 k' k'' → TickedBy (suc n) k k''
TickedBy-trans n k k' k'' past now =
    let at' = ap k'.task_manager past.same_pid in
    let at'' = ap k''.task_manager past.same_pid in
    record {
      same_pid = now.same_pid ∙ past.same_pid;
      counted =
          sym (ap (λ (t : Task). t.used_ticks) at'')
          ∙ now.counted
          ∙ omega (arith, ap (λ (t : Task). t.used_ticks) at', past.counted);
      same_limit =
          sym (ap (λ (t : Task). t.max_ticks) at'')
          ∙ now.same_limit
          ∙ ap (λ (t : Task). t.max_ticks) at'
          ∙ past.same_limit;
      same_state =
          sym (ap (λ (t : Task). t.process_state) at'')
          ∙ now.same_state
          ∙ ap (λ (t : Task). t.process_state) at'
          ∙ past.same_state;
      same_ready = λ i. now.same_ready i ∙ past.same_ready i;
    }

tick-TickedBy :
    (frame : InterruptRegisters) (k : Kernel)
    → (k.task_manager k.cur_pid).process_state ≡ ready_process_state
    → (k.task_manager k.cur_pid).used_ticks < (k.task_manager k.cur_pid).max_ticks
    → (k.task_manager k.cur_pid).max_ticks < 256
    → TickedBy 1 k (timer_interrupt frame k).1
tick-TickedBy frame k ready less small =
    let task = k.task_manager k.cur_pid in
    let saved = set_registers k.cur_pid frame k in
    let self = update_self saved.task_manager k.cur_pid (counted_task frame task) in
    subst (λ (r : InterruptRegisters × Kernel). TickedBy 1 k r.1)
      (sym (timer_interrupt-within frame k ready (within task ready less)))
      (record {
        same_pid = refl;
        counted = ap (λ (t : Task). t.used_ticks) self ∙ omega arith;
        same_limit = ap (λ (t : Task). t.max_ticks) self;
        same_state = ap (λ (t : Task). t.process_state) self;
        same_ready = counted_task-SameReady frame k;
      })

-- A ready task that has time left keeps running, each timer interrupt counted, until its ticks are
-- used up.
ticks-TickedBy :
    (n : ℕ) (frames : ℕ → InterruptRegisters) (k : Kernel)
    → (k.task_manager k.cur_pid).process_state ≡ ready_process_state
    → (k.task_manager k.cur_pid).used_ticks + n ≤ (k.task_manager k.cur_pid).max_ticks
    → (k.task_manager k.cur_pid).max_ticks < 256
    → TickedBy n k (ticks n frames k)
unfolding ticks
ticks-TickedBy zero frames k ready less small = record {
  same_pid = refl;
  counted = omega arith;
  same_limit = refl;
  same_state = refl;
  same_ready = λ i. refl;
}
ticks-TickedBy (suc n) frames k ready less small =
    let before = ticks n frames k in
    let past = ticks-TickedBy n frames k ready (omega arith) small in
    let at = ap before.task_manager past.same_pid in
    let used = ap (λ (t : Task). t.used_ticks) at ∙ past.counted in
    let limit = ap (λ (t : Task). t.max_ticks) at ∙ past.same_limit in
    let state = ap (λ (t : Task). t.process_state) at ∙ past.same_state ∙ ready in
    TickedBy-trans n k before (timer_interrupt (frames n) before).1 past
      (tick-TickedBy (frames n) before state (omega (arith, used, limit)) (omega (arith, limit)))

over-SameReady :
    (frame : InterruptRegisters) (k : Kernel)
    → SameReady
        (set_task k.cur_pid
          (record (k.task_manager k.cur_pid) { saved_registers = frame; used_ticks = 0 })
          (set_registers k.cur_pid frame k))
        k
over-SameReady frame k i =
    let task = k.task_manager k.cur_pid in
    let saved = record task { saved_registers = frame } in
    let self = update_self k.task_manager k.cur_pid saved in
    set_task-SameReady k.cur_pid (record saved { used_ticks = 0 }) (set_registers k.cur_pid frame k)
      (sym (ap (λ (t : Task). t.exists) self)) (sym (ap (λ (t : Task). t.process_state) self)) i
    ∙ set_task-SameReady k.cur_pid saved k refl refl i

-- A ready current task whose used ticks are within its limit, a byte, stays the current task for as many
-- timer interrupts as it has ticks left, whatever the frames, and is left at the next one for the task
-- that find_next_task chooses from the table as it was at the start.
pub timer_interrupt-preempts :
    (frames : ℕ → InterruptRegisters) (k : Kernel)
    → let task = k.task_manager k.cur_pid in
      task.process_state ≡ ready_process_state
      → task.used_ticks ≤ task.max_ticks
      → task.max_ticks < 256
      → ((n : ℕ) → n ≤ task.max_ticks - task.used_ticks → (ticks n frames k).cur_pid ≡ k.cur_pid)
        × ((ticks (suc (task.max_ticks - task.used_ticks)) frames k).cur_pid
            ≡ find_next_task k.cur_pid k)
unfolding ticks
timer_interrupt-preempts frames k ready less small =
    let task = k.task_manager k.cur_pid in
    let left = task.max_ticks - task.used_ticks in
    let last = ticks left frames k in
    let past = ticks-TickedBy left frames k ready (omega arith) small in
    let at = ap last.task_manager past.same_pid in
    let used = ap (λ (t : Task). t.used_ticks) at ∙ past.counted in
    let limit = ap (λ (t : Task). t.max_ticks) at ∙ past.same_limit in
    let state = ap (λ (t : Task). t.process_state) at ∙ past.same_state ∙ ready in
    (
      λ n h. (ticks-TickedBy n frames k ready (omega arith) small).same_pid,
      timer_interrupt-over (frames left) last state
            (over (last.task_manager last.cur_pid) (omega (arith, used, limit)))
          ∙ find_next_task-SameReady _ _ last.cur_pid
              (λ i. over-SameReady (frames left) last i ∙ past.same_ready i)
          ∙ ap (λ (c : ℕ). find_next_task c k) past.same_pid,
    )
