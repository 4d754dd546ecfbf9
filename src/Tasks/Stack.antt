-- ===== src/Tasks/Stack.antt =====
-- TaskStack_Push and TaskStack_Pop of src/kernel/drivers/Userland/Tasks.c. A kernel access to a
-- user address goes to the address space in use.
pub mod Effects
use chud_os.Base.{ℕ, Bool, if◌then◌else◌, update}
use chud_os.Base.Words.{add64, sub64}
use chud_os.Tasks.{InterruptRegisters, Task, Kernel, mem_set_cr3, set_registers}
use chud_os.Tasks.Bytes.{load64, store64}

abbrev pub write_user : ℕ → ℕ → Kernel → Kernel
write_user address value k = record k {
  space = update k.space k.pml4_physical (store64 address value (k.space k.pml4_physical));
}

abbrev pub read_user : ℕ → Kernel → ℕ
read_user address k = load64 address (k.space k.pml4_physical)

unfoldable pub task_stack_push : ℕ → ℕ → Bool → Kernel → Kernel
task_stack_push pid value setcr3 k =
    let regs = (k.task_manager pid).saved_registers in
    let rsp = sub64 regs.rsp 8 in
    let moved = set_registers pid (record regs { rsp = rsp }) k in
    let switched = if setcr3 then mem_set_cr3 (k.task_manager pid).base_pml4 moved else moved in
    let written = write_user rsp value switched in
    if (k.task_manager pid).exists
    then (if setcr3 then mem_set_cr3 k.pml4_physical written else written)
    else k

-- `*ret` is read last, after the address space in use is the first one again.
pub task_stack_pop : ℕ → Bool → Kernel → ℕ × Kernel
task_stack_pop pid setcr3 k =
    let regs = (k.task_manager pid).saved_registers in
    let switched = if setcr3 then mem_set_cr3 (k.task_manager pid).base_pml4 k else k in
    let moved = set_registers pid (record regs { rsp = add64 regs.rsp 8 }) switched in
    let back = if setcr3 then mem_set_cr3 k.pml4_physical moved else moved in
    if (k.task_manager pid).exists then (read_user regs.rsp back, back) else (0, k)
