-- ===== src/Tasks/Stack/Effects.antt =====
-- What one push and one pop on the stack of a task do.
use chud_os.Base.{
  ℕ, ◌+◌, ◌-◌, ◌^◌, ◌<◌, ◌≤◌, ◌≡◌, refl, sym, ap, ◌∙◌, arith, Bool, true, false, if◌then◌else◌,
  update, update_self,
}
use mathlib.Core.Path.{subst}
use chud_os.Base.Words.{add64, sub64}
use chud_os.Tasks.{InterruptRegisters, Task, Kernel, set_task, set_registers}
use chud_os.Tasks.Bytes.{load64, store64}
use chud_os.Tasks.Stack.{task_stack_push, task_stack_pop, write_user}

abbrev pub registers : ℕ → Kernel → InterruptRegisters
registers pid k = (k.task_manager pid).saved_registers

-- The memory in use.
abbrev pub memory : Kernel → ℕ → ℕ
memory k = k.space k.pml4_physical

-- Everything of a task and of the kernel but registers, memory and the state of the process.
pub record Same (pid : ℕ) (k k' : Kernel) : Type 0 where
  pub exists : (k'.task_manager pid).exists ≡ (k.task_manager pid).exists
  pub base_pml4 : (k'.task_manager pid).base_pml4 ≡ (k.task_manager pid).base_pml4
  pub pml4_physical : k'.pml4_physical ≡ k.pml4_physical
  pub cur_pid : k'.cur_pid ≡ k.cur_pid

pub Same-trans : {pid : ℕ} {a b c : Kernel} → Same pid a b → Same pid b c → Same pid a c
Same-trans s t = record {
  exists = t.exists ∙ s.exists;
  base_pml4 = t.base_pml4 ∙ s.base_pml4;
  pml4_physical = t.pml4_physical ∙ s.pml4_physical;
  cur_pid = t.cur_pid ∙ s.cur_pid;
}

-- A write of the registers of a task, read back.
pub set_self : (k : Kernel) (pid : ℕ) (t : Task) → update k.task_manager pid t pid ≡ t
set_self k pid t = update_self k.task_manager pid t

pub registers-set :
    (k : Kernel) (pid : ℕ) (t : Task) → registers pid (set_task pid t k) ≡ t.saved_registers
registers-set k pid t = ap (λ (x : Task). x.saved_registers) (set_self k pid t)

pub set_registers-Same :
    (k : Kernel) (pid : ℕ) (r : InterruptRegisters) → Same pid k (set_registers pid r k)
set_registers-Same k pid r =
    let t = record (k.task_manager pid) { saved_registers = r } in
    record {
      exists = ap (λ (x : Task). x.exists) (set_self k pid t);
      base_pml4 = ap (λ (x : Task). x.base_pml4) (set_self k pid t);
      pml4_physical = refl;
      cur_pid = refl;
    }

module _ (pid : ℕ) (k : Kernel) (e : (k.task_manager pid).exists ≡ true) where
  abbrev regs : InterruptRegisters
  regs = registers pid k

  abbrev at_rsp : ℕ → InterruptRegisters
  at_rsp rsp = record regs { rsp = rsp }

  abbrev pushed : ℕ → Kernel
  pushed v = write_user (sub64 regs.rsp 8) v (set_registers pid (at_rsp (sub64 regs.rsp 8)) k)

  push_eq : (v : ℕ) → task_stack_push pid v false k ≡ pushed v
  unfolding task_stack_push
  push_eq v = ap (λ (b : Bool). if b then pushed v else k) e

  down : 8 ≤ regs.rsp → regs.rsp < 2 ^ 64 → sub64 regs.rsp 8 ≡ regs.rsp - 8
  down low top = omega arith

  pub push-memory :
      (v : ℕ)
      → 8 ≤ regs.rsp
      → regs.rsp < 2 ^ 64
      → memory (task_stack_push pid v false k) ≡ store64 (regs.rsp - 8) v (memory k)
  push-memory v low top =
      ap memory (push_eq v)
      ∙ update_self k.space k.pml4_physical (store64 (sub64 regs.rsp 8) v (memory k))
      ∙ ap (λ (a : ℕ). store64 a v (memory k)) (down low top)

  pub push-registers :
      (v : ℕ)
      → 8 ≤ regs.rsp
      → regs.rsp < 2 ^ 64
      → registers pid (task_stack_push pid v false k) ≡ record regs { rsp = regs.rsp - 8 }
  push-registers v low top =
      ap (registers pid) (push_eq v)
      ∙ registers-set k pid
          (record (k.task_manager pid) { saved_registers = at_rsp (sub64 regs.rsp 8) })
      ∙ ap at_rsp (down low top)

  pub push-Same : (v : ℕ) → Same pid k (task_stack_push pid v false k)
  push-Same v =
      let same = set_registers-Same k pid (at_rsp (sub64 regs.rsp 8)) in
      subst (λ (k' : Kernel). Same pid k k') (sym (push_eq v))
        (record {
          exists = same.exists;
          base_pml4 = same.base_pml4;
          pml4_physical = refl;
          cur_pid = refl;
        })

  pop_eq :
      task_stack_pop pid false k
      ≡ (load64 regs.rsp (memory k), set_registers pid (at_rsp (add64 regs.rsp 8)) k)
  unfolding task_stack_pop
  pop_eq =
      let moved = set_registers pid (at_rsp (add64 regs.rsp 8)) k in
      ap (λ (b : Bool). if b then (load64 regs.rsp (memory k), moved) else (0, k)) e

  -- What one assignment from a pop does.
  abbrev pub popped : (ℕ → InterruptRegisters → InterruptRegisters) → Kernel
  popped assign =
      let out = task_stack_pop pid false k in
      set_registers pid (assign out.0 (registers pid out.1)) out.1

  pub pop-registers :
      (assign : ℕ → InterruptRegisters → InterruptRegisters)
      → regs.rsp + 8 < 2 ^ 64
      → registers pid (popped assign)
        ≡ assign (load64 regs.rsp (memory k)) (record regs { rsp = regs.rsp + 8 })
  pop-registers assign top =
      let up : add64 regs.rsp 8 ≡ regs.rsp + 8 = omega arith in
      let value = load64 regs.rsp (memory k) in
      let out = task_stack_pop pid false k in
      registers-set out.1 pid
        (record (out.1.task_manager pid) { saved_registers = assign out.0 (registers pid out.1) })
      ∙ ap (λ (o : ℕ × Kernel). assign o.0 (registers pid o.1)) pop_eq
      ∙ ap (assign value) (
          registers-set k pid
            (record (k.task_manager pid) { saved_registers = at_rsp (add64 regs.rsp 8) }))
      ∙ ap (λ (a : ℕ). assign value (at_rsp a)) up

  pub pop-memory :
      (assign : ℕ → InterruptRegisters → InterruptRegisters) → memory (popped assign) ≡ memory k
  pop-memory assign = ap (λ (o : ℕ × Kernel). memory o.1) pop_eq

  pub pop-Same : (assign : ℕ → InterruptRegisters → InterruptRegisters) → Same pid k (popped assign)
  pop-Same assign =
      let out = task_stack_pop pid false k in
      let first =
        subst (λ (o : ℕ × Kernel). Same pid k o.1) (sym pop_eq)
          (set_registers-Same k pid (at_rsp (add64 regs.rsp 8))) in
      Same-trans first (set_registers-Same out.1 pid (assign out.0 (registers pid out.1)))
