-- ===== src/Signals/Save.antt =====
-- What EstablishSignalStack saves.
use chud_os.Base.{ℕ, ◌-◌, ◌≤◌, ◌≡◌, sym, ap, ◌∙◌, arith, Bool, true, ◌==◌, if◌then◌else◌}
use mathlib.Core.Path.{subst}
use chud_os.Tasks.{InterruptRegisters, Kernel, set_registers}
use chud_os.Tasks.Stack.Effects.{registers, memory, registers-set}
use chud_os.Signals.{signal_frame, push_all, establish_signal_stack}
use chud_os.Signals.Frame.{AllWords, Stacked, Pushed, push_all-Pushed}
use chud_os.Signals.Space.{
  Resident, entered, Entered, entered-Entered, left, left-registers, left-space,
}

-- EstablishSignalStack of a task that exists saves its frame below its stack pointer, in its own
-- address space.
module _ (pid : ℕ) (k : Kernel) (e : (k.task_manager pid).exists ≡ true)
    (own : Resident pid ((k.task_manager pid).process_id == k.cur_pid) k)
    (words : AllWords (signal_frame (registers pid k))) (low : 128 ≤ (registers pid k).rsp) where
  abbrev old : InterruptRegisters
  old = registers pid k

  abbrev base : ℕ
  base = (k.task_manager pid).base_pml4

  abbrev is_current : Bool
  is_current = (k.task_manager pid).process_id == k.cur_pid

  abbrev start : Kernel
  start = entered pid is_current k

  abbrev finish : Kernel
  finish = push_all pid (signal_frame old) start

  abbrev marked : Kernel
  marked =
      set_registers pid (record (registers pid finish) { r12 = (registers pid finish).rsp }) finish

  establish_eq : establish_signal_stack pid k ≡ left pid is_current k.pml4_physical marked
  unfolding establish_signal_stack
  establish_eq = ap (λ (b : Bool). if b then left pid is_current k.pml4_physical marked else k) e

  inside : Entered pid k start
  inside = entered-Entered pid is_current k own

  pushes : Pushed pid (signal_frame old) start finish
  pushes =
      let at = ap (λ (r : InterruptRegisters). r.rsp) inside.regs in
      push_all-Pushed pid (signal_frame old) start (inside.exists ∙ e) words (omega (arith, at))
        (omega (arith, at, words.0))

  pub establish-r12 : (registers pid (establish_signal_stack pid k)).r12 ≡ old.rsp - 128
  establish-r12 =
      ap (λ (x : Kernel). (registers pid x).r12) establish_eq
      ∙ ap (λ (r : InterruptRegisters). r.r12)
          (left-registers pid is_current k.pml4_physical marked)
      ∙ ap (λ (r : InterruptRegisters). r.r12)
          (registers-set finish pid (record (finish.task_manager pid) {
            saved_registers = record (registers pid finish) { r12 = (registers pid finish).rsp };
          }))
      ∙ ap (λ (r : InterruptRegisters). r.rsp) pushes.regs
      ∙ ap (λ (r : InterruptRegisters). r.rsp - 128) inside.regs

  establish-space : (establish_signal_stack pid k).space base ≡ memory finish
  establish-space =
      ap (λ (x : Kernel). x.space base) establish_eq
      ∙ ap (λ (s : ℕ → ℕ → ℕ). s base) (left-space pid is_current k.pml4_physical marked)
      ∙ ap finish.space (sym (pushes.same.pml4_physical ∙ inside.in_use))

  pub establish-Stacked :
      Stacked ((establish_signal_stack pid k).space base) (signal_frame old) old.rsp
  establish-Stacked =
      subst (λ (f : ℕ → ℕ). Stacked f (signal_frame old) old.rsp) (sym establish-space)
        (subst (Stacked (memory finish) (signal_frame old))
          (ap (λ (r : InterruptRegisters). r.rsp) inside.regs) pushes.stacked)
