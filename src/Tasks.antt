-- ===== src/Tasks.antt =====
-- The state that src/kernel/drivers/Userland/Tasks.c, signals.c and src/kernel/drivers/LowLevel/
-- Timer.c share: the task table of include/LowLevel/Memory.h with the registers of
-- include/LowLevel/IDT.h, the current task, the address space in use, and memory as each address
-- space shows it.
pub mod Access
pub mod Bytes
pub mod Stack
pub mod Copy
pub mod Manage
pub mod Arguments
pub mod Release
pub mod Machine
use chud_os.Base.{ℕ, Bool, false, update}
use chud_os.Gdt.{Tss}
use chud_os.Memory.Malloc.{TaskMemory}

-- `InterruptRegisters`: what the entry of the interrupt stores, the general registers, then what the processor pushes.
pub record InterruptRegisters : Type 0 where
  pub int_no : ℕ
  pub cr2 : ℕ
  pub r15 : ℕ
  pub r14 : ℕ
  pub r13 : ℕ
  pub r12 : ℕ
  pub r11 : ℕ
  pub r10 : ℕ
  pub r9 : ℕ
  pub r8 : ℕ
  pub rdi : ℕ
  pub rsi : ℕ
  pub rbp : ℕ
  pub rbx : ℕ
  pub rdx : ℕ
  pub rcx : ℕ
  pub rax : ℕ
  pub error_code : ℕ
  pub rip : ℕ
  pub cs : ℕ
  pub rflags : ℕ
  pub rsp : ℕ
  pub ss : ℕ

pub record SignalDescriptor : Type 0 where
  pub registered : Bool
  pub entry : ℕ

pub record FileDescriptor : Type 0 where
  pub gemfs_index : ℕ
  pub flags : ℕ
  pub last_point : ℕ
  pub used : Bool

-- `ProcessState` and `WaitingReason` hold the numbers that Tasks.h names.
abbrev pub null_process_state : ℕ
null_process_state = 0

abbrev pub creation_process_state : ℕ
creation_process_state = 1

abbrev pub ready_process_state : ℕ
ready_process_state = 2

abbrev pub waiting_process_state : ℕ
waiting_process_state = 3

abbrev pub kill_process_state : ℕ
kill_process_state = 4

abbrev pub waiting_reason_null : ℕ
waiting_reason_null = 0

abbrev pub waiting_reason_child : ℕ
waiting_reason_child = 3

-- `struct Task_S`.
pub record Task : Type 0 where
  pub process_id : ℕ
  pub memory_data : TaskMemory
  pub saved_registers : InterruptRegisters
  pub max_ticks : ℕ
  pub used_ticks : ℕ
  pub total_ticks : ℕ
  pub process_state : ℕ
  pub waiting_reason : ℕ
  pub child_waiting_reason : ℕ
  pub sleep_cycle : ℕ
  pub requested_sleep_cycle : ℕ
  pub base_pml4 : ℕ
  pub descriptors : ℕ → FileDescriptor
  pub user_tss : Tss
  pub pid_waiting_for : ℕ
  pub owner_pid : ℕ
  pub working_fd : ℕ
  pub signals : ℕ → SignalDescriptor
  pub exists : Bool

-- `space cr3 a` is the byte that the address space `cr3` has at the user address `a`.
pub record Kernel : Type 0 where
  pub task_manager : ℕ → Task
  pub cur_pid : ℕ
  pub pml4_physical : ℕ
  pub active_tss : Tss
  pub space : ℕ → ℕ → ℕ

abbrev pub mem_set_cr3 : ℕ → Kernel → Kernel
mem_set_cr3 addr k = record k { pml4_physical = addr }

-- An assignment to fields of `TaskManager[pid]`.
abbrev pub set_task : ℕ → Task → Kernel → Kernel
set_task pid t k = record k { task_manager = update k.task_manager pid t }

abbrev pub set_registers : ℕ → InterruptRegisters → Kernel → Kernel
set_registers pid regs k = set_task pid (record (k.task_manager pid) { saved_registers = regs }) k

abbrev pub set_state : ℕ → ℕ → Kernel → Kernel
set_state pid state k = set_task pid (record (k.task_manager pid) { process_state = state }) k
