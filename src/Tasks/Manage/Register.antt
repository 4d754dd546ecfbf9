-- ===== src/Tasks/Manage/Register.antt =====
-- RegisterTask and SignalOwner.
use chud_os.Base.{
  ℕ, ◌≡◌, refl, sym, ap, ◌∙◌, ◌≢◌, arith, false, inl, inr, ◌==◌, ==_of_ne, update_self, update_ne,
}
use mathlib.Core.Bool.{true≢false}
use chud_os.Tasks.{Kernel}
use chud_os.Tasks.Manage.{find_free_pid, registered_task, register_task}
use chud_os.Tasks.Manage.Free.{LowestFree, lowest_unique, find_free_pid_lem}

find_free_pid-lowest :
    (k : Kernel) (free : ℕ)
    → LowestFree 512 (λ i. (k.task_manager i).exists) free
    → find_free_pid k ≡ free
find_free_pid-lowest k free l = elim (find_free_pid_lem k) [
  | inl l' ↦ lowest_unique 512 (λ i. (k.task_manager i).exists) (find_free_pid k) free l' l
  | inr (e, full) ↦ absurd (true≢false (sym (full free l.0) ∙ l.1))
]

-- Where a PID is free, RegisterTask returns the lowest free one, which now has a task that exists,
-- with the entry point and the address space that were asked for and not yet ready to run; every
-- other task is as before.
pub register_task-registered :
    (base entry pages ticks stack pml4 : ℕ) (k : Kernel) (free : ℕ)
    → LowestFree 512 (λ i. (k.task_manager i).exists) free
    → ((register_task base entry pages ticks stack pml4 k).0 ≡ free)
      × ((register_task base entry pages ticks stack pml4 k).1.task_manager free
          ≡ registered_task base entry pages ticks stack pml4)
      × ((other : ℕ)
          → free ≢ other
          → (register_task base entry pages ticks stack pml4 k).1.task_manager other
            ≡ k.task_manager other)
unfolding register_task
register_task-registered base entry pages ticks stack pml4 k free l =
    let task = registered_task base entry pages ticks stack pml4 in
    let past : (find_free_pid k == 513) ≡ false =
      ap (λ (n : ℕ). n == 513) (find_free_pid-lowest k free l)
      ∙ ==_of_ne free 513 (omega (arith, l.0)) in
    rw (past, find_free_pid-lowest k free l)
      (
        refl,
        update_self k.task_manager free task,
        λ other ne. update_ne k.task_manager free task other ne,
      )
