-- ===== src/Signals/Space.antt =====
-- The change of address space around the pushes of EstablishSignalStack and the pops of SignalReturn.
use chud_os.Base.{ℕ, ◌≡◌, refl, ap, Bool, true, false}
use chud_os.Tasks.{Task, Kernel, set_state, creation_process_state, ready_process_state}
use chud_os.Tasks.Stack.Effects.{registers, memory, set_self, registers-set}
use chud_os.Signals.{enter_space}

-- Where the task counts as the current one, its address space is the one in use.
abbrev pub Resident : ℕ → Bool → Kernel → Type 0
Resident pid is_current k = is_current ≡ true → k.pml4_physical ≡ (k.task_manager pid).base_pml4

abbrev pub entered : ℕ → Bool → Kernel → Kernel
entered pid is_current k =
    set_state pid creation_process_state (enter_space is_current (k.task_manager pid).base_pml4 k)

-- The address space that the pushes and pops go to.
pub record Entered (pid : ℕ) (k k' : Kernel) : Type 0 where
  pub exists : (k'.task_manager pid).exists ≡ (k.task_manager pid).exists
  pub regs : registers pid k' ≡ registers pid k
  pub in_use : k'.pml4_physical ≡ (k.task_manager pid).base_pml4
  pub bytes : memory k' ≡ k.space (k.task_manager pid).base_pml4
  pub cur_pid : k'.cur_pid ≡ k.cur_pid
  pub base_pml4 : (k'.task_manager pid).base_pml4 ≡ (k.task_manager pid).base_pml4

pub entered-Entered :
    (pid : ℕ) (b : Bool) (k : Kernel) → Resident pid b k → Entered pid k (entered pid b k)
entered-Entered pid true k own =
    let self =
      set_self k pid (record (k.task_manager pid) { process_state = creation_process_state }) in
    record {
      exists = ap (λ (t : Task). t.exists) self;
      regs = ap (λ (t : Task). t.saved_registers) self;
      in_use = own refl;
      bytes = ap k.space (own refl);
      cur_pid = refl;
      base_pml4 = ap (λ (t : Task). t.base_pml4) self;
    }
entered-Entered pid false k own =
    let self =
      set_self k pid (record (k.task_manager pid) { process_state = creation_process_state }) in
    record {
      exists = ap (λ (t : Task). t.exists) self;
      regs = ap (λ (t : Task). t.saved_registers) self;
      in_use = refl;
      bytes = refl;
      cur_pid = refl;
      base_pml4 = ap (λ (t : Task). t.base_pml4) self;
    }

-- The way out of the address space, and back to the ready state.
abbrev pub left : ℕ → Bool → ℕ → Kernel → Kernel
left pid is_current cr3 k = set_state pid ready_process_state (enter_space is_current cr3 k)

pub left-registers :
    (pid : ℕ) (b : Bool) (cr3 : ℕ) (k : Kernel) → registers pid (left pid b cr3 k) ≡ registers pid k
left-registers pid true cr3 k =
    registers-set k pid (record (k.task_manager pid) { process_state = ready_process_state })
left-registers pid false cr3 k =
    registers-set k pid (record (k.task_manager pid) { process_state = ready_process_state })

pub left-space : (pid : ℕ) (b : Bool) (cr3 : ℕ) (k : Kernel) → (left pid b cr3 k).space ≡ k.space
left-space pid true cr3 k = refl
left-space pid false cr3 k = refl
