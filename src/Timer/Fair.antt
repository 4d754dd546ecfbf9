-- ===== src/Timer/Fair.antt =====
-- The scheduler of src/kernel/drivers/LowLevel/Timer.c over many switches: which tasks are reached.
use mathlib.Core.Path.{subst}
use mathlib.Core.Bool.{false≢true}
use chud_os.Base.{
  ℕ, zero, suc, ◌+◌, ◌-◌, ◌≤◌, ◌<◌, ◌≡◌, refl, sym, ap, ◌∙◌, arith, Bool, true, ◌&&◌, inl, inr,
  ◌==◌, update_self, update_ne,
}
use native.Mathlib.Decide.{ℕ_discrete, dec_lt}
use chud_os.Tasks.{InterruptRegisters, Task, Kernel, set_registers}
use chud_os.Timer.{is_ready, find_next_task, retired_task, retire, task_switch, force_switch}
use chud_os.Timer.Schedule.{NextReady, find_next_task-NextReady}

abbrev task_is_ready : Task → Bool
task_is_ready t = t.exists && (t.process_state == 2)

task_is_ready-retired : (t : Task) → task_is_ready (retired_task t) ≡ task_is_ready t
unfolding retired_task
task_is_ready-retired t = ground arith

-- Retiring the current task leaves the set of ready tasks as it is.
pub is_ready-retire : (pid i : ℕ) (k : Kernel) → is_ready (retire pid k) i ≡ is_ready k i
is_ready-retire pid i k = elim (ℕ_discrete i pid) [
  | yes e ↦
      subst (λ j. is_ready (retire pid k) j ≡ is_ready k j) (sym e)
        (ap task_is_ready (update_self k.task_manager pid (retired_task (k.task_manager pid)))
          ∙ task_is_ready-retired (k.task_manager pid))
  | no ne ↦
      ap task_is_ready
        (update_ne k.task_manager pid (retired_task (k.task_manager pid)) i (λ e. ne (sym e)))
]

is_ready-set_registers :
    (pid i : ℕ) (regs : InterruptRegisters) (k : Kernel)
    → is_ready (set_registers pid regs k) i ≡ is_ready k i
is_ready-set_registers pid i regs k = elim (ℕ_discrete i pid) [
  | yes e ↦
      subst (λ j. is_ready (set_registers pid regs k) j ≡ is_ready k j) (sym e)
        (ap task_is_ready
          (update_self k.task_manager pid (record (k.task_manager pid) { saved_registers = regs })))
  | no ne ↦ ap task_is_ready (
      update_ne k.task_manager pid (record (k.task_manager pid) { saved_registers = regs }) i
        (λ e. ne (sym e)))
]

-- A switch changes no task's readiness.
pub is_ready-force_switch :
    (frame : InterruptRegisters) (k : Kernel) (i : ℕ)
    → is_ready (force_switch frame k).1 i ≡ is_ready k i
unfolding force_switch task_switch
is_ready-force_switch frame k i =
    let retired = retire k.cur_pid k in
    is_ready-set_registers k.cur_pid i frame (set_registers k.cur_pid frame retired)
    ∙ is_ready-set_registers k.cur_pid i frame retired
    ∙ is_ready-retire k.cur_pid i k

cur_pid-force_switch :
    (frame : InterruptRegisters) (k : Kernel)
    → (force_switch frame k).1.cur_pid ≡ find_next_task k.cur_pid (retire k.cur_pid k)
unfolding force_switch task_switch
cur_pid-force_switch frame k = refl

below_target :
    (k : Kernel) (p r : ℕ)
    → p < 512
    → is_ready k p ≡ true
    → k.cur_pid < p
    → NextReady (retire k.cur_pid k) k.cur_pid r
    → (k.cur_pid < r) × (r ≤ p)
below_target k p r bound ready below next =
    let still = is_ready-retire k.cur_pid p k ∙ ready in
    elim next [
      | inl (past, end, _, none_between) ↦ (past, ground (arith, none_between p below))
      | inr (_, none_after) ↦ absurd (false≢true (sym (none_after p below bound) ∙ still))
    ]

-- The kernels at the switches of a run, each with the current task that ForceSwitch chose at the one
-- before; what else happens between two switches is left open.
abbrev pub Switches : (ℕ → Kernel) → (ℕ → InterruptRegisters) → Type 0
Switches ks frames = (n : ℕ) → (ks (suc n)).cur_pid ≡ (force_switch (frames n) (ks n)).1.cur_pid

module _ (ks : ℕ → Kernel) (frames : ℕ → InterruptRegisters) (switches : Switches ks frames)
    (start : (ks 0).cur_pid < 512) where
  next_at :
      (n : ℕ)
      → (ks n).cur_pid < 512
      → NextReady (retire (ks n).cur_pid (ks n)) (ks n).cur_pid (ks (suc n)).cur_pid
  next_at n h =
      subst (λ r. NextReady (retire (ks n).cur_pid (ks n)) (ks n).cur_pid r)
        (sym (switches n ∙ cur_pid-force_switch (frames n) (ks n)))
        (find_next_task-NextReady (retire (ks n).cur_pid (ks n)) (ks n).cur_pid h)

  NextReady-bound : (k : Kernel) (cur r : ℕ) → NextReady k cur r → r < 512
  NextReady-bound k cur r next = elim next [ inl (_, end, _, _) ↦ end | inr (e, _) ↦ omega arith ]

  cur_pid_bound : (n : ℕ) → (ks n).cur_pid < 512
  cur_pid_bound zero = start
  cur_pid_bound (suc n) =
      NextReady-bound (retire (ks n).cur_pid (ks n)) (ks n).cur_pid (ks (suc n)).cur_pid
        (next_at n (cur_pid_bound n))

  -- Up to a task that stays ready, from below it.
  climb :
      (p : ℕ)
      → p < 512
      → ((n : ℕ) → is_ready (ks n) p ≡ true)
      → (d n : ℕ) → (ks n).cur_pid < p
      → p - (ks n).cur_pid ≤ d
      → (m : ℕ) × (n < m) × (m ≤ n + d) × ((ks m).cur_pid ≡ p)
  climb p bound ready zero n below near = absurd (omega arith)
  climb p bound ready (suc d) n below near =
      let (past, upto) =
        below_target (ks n) p (ks (suc n)).cur_pid bound (ready n) below
          (next_at n (cur_pid_bound n)) in
      elim (ℕ_discrete (ks (suc n)).cur_pid p) [
        | yes there ↦ (suc n, omega arith, omega arith, there)
        | no short ↦
            let (m, later, soon, there) =
              climb p bound ready d (suc n) (omega arith) (omega arith) in
            (m, omega arith, omega arith, there)
      ]

  -- Round past the end to PID 0.
  wrap :
      (d n : ℕ) → 512 - (ks n).cur_pid ≤ d → (m : ℕ) × (n < m) × (m ≤ n + d) × ((ks m).cur_pid ≡ 0)
  wrap zero n near = absurd (omega (arith, cur_pid_bound n))
  wrap (suc d) n near = elim (next_at n (cur_pid_bound n)) [
    | inl (past, _, _, _) ↦
        let (m, later, soon, there) = wrap d (suc n) (omega arith) in
        (m, omega arith, omega arith, there)
    | inr (e, _) ↦ (suc n, omega arith, omega arith, e)
  ]

-- In a run of switches that starts from a PID below 512, whatever happens to the other tasks between
-- them, a task whose PID is below 512 and that exists and is ready at each switch becomes the current one
-- at most 512 switches after any point of the run.
pub force_switch-reaches :
    (ks : ℕ → Kernel) (frames : ℕ → InterruptRegisters) (p n : ℕ)
    → Switches ks frames
    → (ks 0).cur_pid < 512
    → p < 512
    → ((i : ℕ) → is_ready (ks i) p ≡ true)
    → (m : ℕ) × (n < m) × (m ≤ n + 512) × ((ks m).cur_pid ≡ p)
force_switch-reaches ks frames p n switches start bound ready =
    let small = cur_pid_bound ks frames switches start n in
    elim (dec_lt (ks n).cur_pid p) [
      | yes below ↦
          let (m, later, soon, there) =
            climb ks frames switches start p bound ready 512 n below (omega arith) in
          (m, later, soon, there)
      | no past ↦
          let (w, later, soon, zeroed) =
            wrap ks frames switches start (512 - (ks n).cur_pid) n (omega arith) in
          elim (ℕ_discrete p 0) [
            | yes e ↦ (w, later, omega arith, zeroed ∙ sym e)
            | no ne ↦
                let (m, later', soon', there) =
                  climb ks frames switches start p bound ready p w (omega arith) (omega arith) in
                (m, omega arith, omega arith, there)
          ]
    ]
