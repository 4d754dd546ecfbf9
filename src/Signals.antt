-- ===== src/Signals.antt =====
-- src/kernel/drivers/Userland/signals.c: EstablishSignalStack, SignalReturn, SendSignal and
-- RegisterSignal. The message of SendSignal is left out.
pub mod Frame
pub mod Space
pub mod Save
pub mod Restore
pub mod RoundTrip
use chud_os.Base.{ℕ, Bool, true, false, not, ◌||◌, ◌==◌, if◌then◌else◌, update, List, [], ◌∷◌}
use chud_os.Tasks.{
  InterruptRegisters, SignalDescriptor, Task, Kernel, mem_set_cr3, set_task, set_registers,
  set_state, creation_process_state, ready_process_state,
}
use chud_os.Tasks.Access.{mem_access_ok}
use chud_os.Tasks.Stack.{task_stack_push, task_stack_pop}

-- What EstablishSignalStack pushes, in order. No push changes a register but `rsp`, whose value is
-- read before the first one.
abbrev pub signal_frame : InterruptRegisters → List ℕ
signal_frame r =
    r.rsp ∷ r.rip ∷ r.rax ∷ r.rbx ∷ r.rcx ∷ r.rdx ∷ r.rbp ∷ r.rdi ∷ r.rsi ∷ r.r9 ∷ r.r10 ∷ r.r11
    ∷ r.r12 ∷ r.r13 ∷ r.r14 ∷ r.r15 ∷ []

unfoldable pub push_all : ℕ → List ℕ → Kernel → Kernel
push_all pid [] k = k
push_all pid (v ∷ vs) k = push_all pid vs (task_stack_push pid v false k)

-- The address space of the task where it is not the current one.
abbrev pub enter_space : Bool → ℕ → Kernel → Kernel
enter_space is_current cr3 k = if is_current then k else mem_set_cr3 cr3 k

unfoldable pub establish_signal_stack : ℕ → Kernel → Kernel
establish_signal_stack pid k =
    let task = k.task_manager pid in
    let is_current = task.process_id == k.cur_pid in
    let entered = set_state pid creation_process_state (enter_space is_current task.base_pml4 k) in
    let pushed = push_all pid (signal_frame task.saved_registers) entered in
    let regs = (pushed.task_manager pid).saved_registers in
    let marked = set_registers pid (record regs { r12 = regs.rsp }) pushed in
    let left = enter_space is_current k.pml4_physical marked in
    if task.exists then set_state pid ready_process_state left else k

-- The assignments of SignalReturn, each with the value of one pop.
abbrev pub Assign : Type 0
Assign = ℕ → InterruptRegisters → InterruptRegisters

pub pop_all : ℕ → List Assign → Kernel → Kernel
pop_all pid [] k = k
pop_all pid (assign ∷ rest) k =
    let (v, k') = task_stack_pop pid false k in
    pop_all pid rest (set_registers pid (assign v (k'.task_manager pid).saved_registers) k')

abbrev pub signal_slots : List Assign
signal_slots =
    (λ v r. record r { r15 = v })
    ∷ (λ v r. record r { r14 = v })
    ∷ (λ v r. record r { r13 = v })
    ∷ (λ v r. record r { r12 = v })
    ∷ (λ v r. record r { r11 = v })
    ∷ (λ v r. record r { r10 = v })
    ∷ (λ v r. record r { r9 = v })
    ∷ (λ v r. record r { rsi = v })
    ∷ (λ v r. record r { rdi = v })
    ∷ (λ v r. record r { rbp = v })
    ∷ (λ v r. record r { rdx = v })
    ∷ (λ v r. record r { rcx = v })
    ∷ (λ v r. record r { rbx = v })
    ∷ (λ v r. record r { rax = v })
    ∷ (λ v r. record r { rip = v })
    ∷ (λ v r. record r { rsp = v })
    ∷ []

pub signal_return : ℕ → Kernel → Kernel
signal_return pid k =
    let task = k.task_manager pid in
    let is_current = pid == k.cur_pid in
    let entered = set_state pid creation_process_state (enter_space is_current task.base_pml4 k) in
    let regs = task.saved_registers in
    let rewound = set_registers pid (record regs { rsp = regs.r12 }) entered in
    let popped = pop_all pid signal_slots rewound in
    let left = enter_space is_current k.pml4_physical popped in
    if task.exists then set_state pid ready_process_state left else k

-- The registers in which a handler finds its arguments and its entry.
abbrev pub handler_registers : ℕ → ℕ → ℕ → ℕ → ℕ → InterruptRegisters → InterruptRegisters
handler_registers arg0 arg1 arg2 arg3 entry r = record r {
  rdi = arg0;
  rsi = arg1;
  rdx = arg2;
  rcx = arg3;
  rip = entry;
}

pub send_signal : ℕ → ℕ → ℕ → ℕ → ℕ → ℕ → Kernel → Kernel
send_signal pid ident arg0 arg1 arg2 arg3 k =
    let task = k.task_manager pid in
    let signal = task.signals ident in
    let creating = set_state pid creation_process_state k in
    let established = establish_signal_stack pid creating in
    let regs = (established.task_manager pid).saved_registers in
    let entry = ((established.task_manager pid).signals ident).entry in
    if not task.exists || not signal.registered
    then k
    else if not (mem_access_ok signal.entry pid creating)
    then creating
    else set_state pid ready_process_state
        (set_registers pid (handler_registers arg0 arg1 arg2 arg3 entry regs) established)

pub register_signal : ℕ → ℕ → ℕ → Kernel → Kernel
register_signal pid ident entry k =
    let task = k.task_manager pid in
    if not task.exists || not (mem_access_ok entry pid k)
    then k
    else set_task pid
        (record task {
          signals = update task.signals ident (record { registered = true; entry = entry });
        })
        k
