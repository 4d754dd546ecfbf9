-- ===== src/Tasks/Manage.antt =====
-- The task table of src/kernel/drivers/Userland/Tasks.c: FindFreePID, FindFreeFileDescriptor,
-- RegisterTask, RegisterTaskStrict, KillTask and SignalOwner. Messages are left out.
pub mod Free
pub mod Register
use chud_os.Base.{
  ℕ, zero, suc, ◌+◌, Bool, true, false, ◌&&◌, ◌||◌, ◌==◌, if◌then◌else◌, update, Option, none, some,
}
use chud_os.Gdt.{zero_tss}
use chud_os.Memory.Malloc.{TaskMemory}
use chud_os.Tasks.{
  InterruptRegisters, FileDescriptor, SignalDescriptor, Task, Kernel, set_task, set_registers,
  set_state, kill_process_state, waiting_process_state, ready_process_state, waiting_reason_child,
  waiting_reason_null,
}

abbrev pub task_count : ℕ
task_count = 512

-- The loops of FindFreePID and FindFreeFileDescriptor, from `i` on.
unfoldable pub find_free_from : ℕ → ℕ → (ℕ → Bool) → Option ℕ
find_free_from zero i taken = none
find_free_from (suc rounds) i taken =
    let rest = find_free_from rounds (suc i) taken in if taken i then rest else some i

pid_or_past : Option ℕ → ℕ
pid_or_past none = task_count + 1
pid_or_past (some i) = i

unfoldable pub find_free_pid : Kernel → ℕ
unfolding pid_or_past
find_free_pid k = pid_or_past (find_free_from task_count 0 (λ i. (k.task_manager i).exists))

-- `none` where the function ends without a return statement.
pub find_free_file_descriptor : ℕ → Kernel → Option ℕ
find_free_file_descriptor pid k =
    find_free_from 64 0 (λ i. ((k.task_manager pid).descriptors i).used)

abbrev zero_memory : TaskMemory
zero_memory = record {
  base_virtual_address = 0;
  page_count = 0;
  stack_base_virtual_address = 0;
  stack_page_count = 0;
  kernel_stack_base_virtual_address = 0;
  kernel_stack_page_count = 0;
  heap_virtual_address = 0;
}

abbrev pub zero_registers : InterruptRegisters
zero_registers = record {
  int_no = 0;
  cr2 = 0;
  r15 = 0;
  r14 = 0;
  r13 = 0;
  r12 = 0;
  r11 = 0;
  r10 = 0;
  r9 = 0;
  r8 = 0;
  rdi = 0;
  rsi = 0;
  rbp = 0;
  rbx = 0;
  rdx = 0;
  rcx = 0;
  rax = 0;
  error_code = 0;
  rip = 0;
  cs = 0;
  rflags = 0;
  rsp = 0;
  ss = 0;
}

abbrev zero_descriptor : FileDescriptor
zero_descriptor = record { gemfs_index = 0; flags = 0; last_point = 0; used = false }

-- `memset(task, 0, sizeof(Task))`.
abbrev pub zero_task : Task
zero_task = record {
  process_id = 0;
  memory_data = zero_memory;
  saved_registers = zero_registers;
  max_ticks = 0;
  used_ticks = 0;
  total_ticks = 0;
  process_state = 0;
  waiting_reason = 0;
  child_waiting_reason = 0;
  sleep_cycle = 0;
  requested_sleep_cycle = 0;
  base_pml4 = 0;
  descriptors = λ i. zero_descriptor;
  user_tss = zero_tss;
  pid_waiting_for = 0;
  owner_pid = 0;
  working_fd = 0;
  signals = λ i. record { registered = false; entry = 0 };
  exists = false;
}

-- The task that both functions write over a zeroed one.
abbrev pub registered_task : ℕ → ℕ → ℕ → ℕ → ℕ → ℕ → Task
registered_task base_vaddr entry_point page_count maxticks stack_start pml4 = record zero_task {
  memory_data = record zero_memory { base_virtual_address = base_vaddr; page_count = page_count };
  max_ticks = maxticks;
  saved_registers = record zero_registers {
    cs = 0x1b;
    rsp = stack_start;
    rbp = stack_start;
    rip = entry_point;
    ss = 0x23;
  };
  base_pml4 = pml4;
  descriptors = λ i. record zero_descriptor { used = (i == 0) || (i == 1) };
  exists = true;
}

pub register_task_strict : ℕ → ℕ → ℕ → ℕ → ℕ → ℕ → ℕ → Kernel → ℕ × Kernel
register_task_strict base_vaddr entry_point page_count maxticks stack_start pml4 pid k = (
  pid,
  set_task pid (registered_task base_vaddr entry_point page_count maxticks stack_start pml4) k,
)

-- 1 is returned where every task exists.
unfoldable pub register_task : ℕ → ℕ → ℕ → ℕ → ℕ → ℕ → Kernel → ℕ × Kernel
register_task base_vaddr entry_point page_count maxticks stack_start pml4 k =
    let free = find_free_pid k in
    let task = registered_task base_vaddr entry_point page_count maxticks stack_start pml4 in
    if free == task_count + 1 then (1, k) else (free, set_task free task k)

pub kill_task : ℕ → Kernel → Kernel
kill_task pid k = set_state pid kill_process_state k

-- `ret` is an `int`, given here as the word that it widens to.
pub signal_owner : Task → ℕ → ℕ → Kernel → Kernel
signal_owner origin reason ret k =
    let owner = k.task_manager origin.owner_pid in
    if origin.owner_pid == 0
    then k
    else if (owner.process_state == waiting_process_state)
        && (owner.waiting_reason == waiting_reason_child)
        && (owner.child_waiting_reason == reason)
    then set_task origin.owner_pid
        (record owner {
          saved_registers = record owner.saved_registers { rax = ret };
          process_state = ready_process_state;
          waiting_reason = waiting_reason_null;
        })
        k
    else k
