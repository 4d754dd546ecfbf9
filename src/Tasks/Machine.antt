-- ===== src/Tasks/Machine.antt =====
-- The two halves of the state together, for the code that changes the task table and the page tables at once, and the
-- calls on KernelTask, the task with PID 0, that LoadElf of src/kernel/drivers/Userland/Tasks.c and FORK of
-- src/kernel/drivers/Userland/syscall.c share. `none` is where the processor is stopped or a null pointer is written
-- through.
use chud_os.Base.{ℕ, update, none, some}
use chud_os.Base.Run.{Run, ◌>>◌, modify}
use chud_os.Memory.Frames.{Memory}
use chud_os.Memory.Alloc.{mapped, null, halted}
use chud_os.Memory.Malloc.{TaskMemory, malloc, create_user_memory}
use chud_os.Tasks.{Task, Kernel, set_task}

-- The tasks with what they see in memory, and the page tables.
pub record Machine : Type 0 where
  pub kernel : Kernel
  pub memory : Memory

abbrev pub set_kernel : (Kernel → Kernel) → Run Machine (Unit {0})
set_kernel f = modify (λ l. record l { kernel = f l.kernel })

-- `mem_set_cr3` on both.
abbrev pub set_address_space : ℕ → Run Machine (Unit {0})
set_address_space pml4 = modify (λ l. record {
  kernel = record l.kernel { pml4_physical = pml4 };
  memory = record l.memory { pml4_physical = pml4 };
})

abbrev pub change_task : ℕ → (Task → Task) → Run Machine (Unit {0})
change_task pid f = set_kernel (λ k. set_task pid (f (k.task_manager pid)) k)

abbrev pub change_memory_data : ℕ → (TaskMemory → TaskMemory) → Run Machine (Unit {0})
change_memory_data pid f = change_task pid (λ t. record t { memory_data = f t.memory_data })

-- The bytes of the address space in use.
abbrev pub change_bytes : ((ℕ → ℕ) → ℕ → ℕ) → Run Machine (Unit {0})
change_bytes f =
    set_kernel
      (λ k. record k { space = update k.space k.pml4_physical (f (k.space k.pml4_physical)) })

-- `malloc(KernelTask)`, the task with PID 0; NULL is 0.
pub malloc_kernel : Run Machine ℕ
malloc_kernel l =
    let (mapping, t, m) = malloc (l.kernel.task_manager 0).memory_data l.memory in
    let l' : Machine = record {
      kernel = set_task 0 (record (l.kernel.task_manager 0) { memory_data = t }) l.kernel;
      memory = m;
    } in
    elim mapping [ mapped va ↦ some (va, l') | null ↦ some (0, l') | halted ↦ none ]

-- Five pages; the stack starts at the last one.
pub malloc_kernel_stack : Run Machine ℕ
unfolding malloc_kernel
malloc_kernel_stack = do malloc_kernel; malloc_kernel; malloc_kernel; malloc_kernel; malloc_kernel

abbrev pub new_address_space : Run Machine ℕ
new_address_space l = elim (create_user_memory (l.kernel.task_manager 0).memory_data l.memory) [
  | none ↦ none
  | some (pml4, t, m) ↦ some (
    pml4,
    record {
      kernel = set_task 0 (record (l.kernel.task_manager 0) { memory_data = t }) l.kernel;
      memory = m;
    },
  )
]
