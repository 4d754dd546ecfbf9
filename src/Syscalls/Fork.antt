-- ===== src/Syscalls/Fork.antt =====
-- FORK of src/kernel/drivers/Userland/syscall.c. The pages of the parent are shared with the child, read-only and
-- marked for a copy on write; `none` is where the processor is stopped or a null pointer is written through.
pub mod Shared
use chud_os.Base.{
  ℕ, zero, suc, ◌+◌, ◌-◌, ◌^◌, Bool, true, false, ◌&&◌, leb, ltb, ◌==◌, if◌then◌else◌, bit_and,
  bit_or, update, Option, none, some,
}
use chud_os.Base.Words.{add64, sub64}
use chud_os.Base.Run.{Run, ◌>>=◌, ◌>>◌, pure, gets, modify, fail, when}
use chud_os.Memory.Address.{extract_page_entries}
use chud_os.Memory.Frames.{Memory}
use chud_os.Memory.Walk.{calculate_page_physical_entry_address, entry_address, write_word}
use chud_os.Memory.Alloc.{PageDetails, Mapping, mapped, null, halted, alloc_page}
use chud_os.Memory.Malloc.{TaskMemory}
use chud_os.Tasks.{
  InterruptRegisters, Task, Kernel, set_task, set_state, creation_process_state,
  ready_process_state,
}
use chud_os.Tasks.Manage.{register_task}
use chud_os.Tasks.Machine.{
  Machine, set_kernel, set_address_space, change_task, change_memory_data, malloc_kernel_stack,
  new_address_space,
}

-- The copy-on-write bit is set, and the write bit is cleared.
pub cow_entry : ℕ → ℕ
cow_entry entry = bit_and (bit_or entry (2 ^ 9)) (2 ^ 64 - 3)

abbrev pub shared_page : ℕ → ℕ → PageDetails
shared_page cur_page entry = record {
  flags = bit_and entry 0xFFF;
  execute_disable = false;
  virtual_address = cur_page;
  physical_address = entry_address entry;
}

abbrev switch_task : ℕ → ℕ → Run Machine (Unit {0})
switch_task pid pml4 = do set_address_space pml4; set_kernel (λ k. record k { cur_pid = pid })

-- The entry of the page in the address space in use, which is changed and returned.
mark_page : ℕ → Run Machine ℕ
mark_page cur_page m =
    let (page_data, walked) =
      calculate_page_physical_entry_address (extract_page_entries cur_page) m.memory in
    let entry = cow_entry (walked.word page_data) in
    some (entry, record m { memory = write_word page_data entry walked })

-- Where the page is mapped for the child, it sees the parent's bytes.
map_shared : ℕ → ℕ → ℕ → ℕ → Run Machine (Unit {0})
map_shared parent_pml4 child_pml4 cur_page entry m =
    let (mapping, memory) = alloc_page (shared_page cur_page entry) m.memory in
    let k = m.kernel in
    let seen : ℕ → ℕ = λ a.
      if leb cur_page a && ltb a (cur_page + 0x1000)
      then k.space parent_pml4 a
      else k.space child_pml4 a in
    elim mapping [
      | mapped va ↦ some (
        tt,
        record m { kernel = record k { space = update k.space child_pml4 seen }; memory = memory },
      )
      | null ↦ some (tt, record m { memory = memory })
      | halted ↦ none
    ]

-- One round of either loop.
pub share_page : ℕ → ℕ → ℕ → ℕ → ℕ → Run Machine (Unit {0})
unfolding mark_page map_shared
share_page cur child parent_pml4 child_pml4 cur_page = do
  switch_task cur parent_pml4
  entry ← mark_page cur_page
  switch_task child child_pml4
  map_shared parent_pml4 child_pml4 cur_page entry

pub share_pages : ℕ → (ℕ → ℕ) → ℕ → ℕ → ℕ → ℕ → ℕ → Run Machine (Unit {0})
share_pages zero next cur child parent_pml4 child_pml4 cur_page = pure tt
share_pages (suc rounds) next cur child parent_pml4 child_pml4 cur_page = do
  share_page cur child parent_pml4 child_pml4 cur_page
  share_pages rounds next cur child parent_pml4 child_pml4 (next cur_page)

-- The entry of the child: RegisterTask, then a copy of the parent's task with what differs. RegisterTask
-- returns 1 where no PID is free, and the copy then replaces task 1.
pub fork_task : ℕ → InterruptRegisters → Run Machine ℕ
fork_task cur regs m =
    let t = m.kernel.task_manager cur in
    let (child, k) =
      register_task t.memory_data.base_virtual_address regs.rip t.memory_data.page_count t.max_ticks
        regs.rbp t.base_pml4 m.kernel in
    some (
      child,
      record m {
        kernel =
            set_task child
              (record (k.task_manager cur) {
                saved_registers = record regs { rax = 0 };
                process_id = child;
                process_state = creation_process_state;
                exists = true;
              })
              k;
      },
    )

pub fork_call : ℕ → InterruptRegisters → Run Machine InterruptRegisters
fork_call cur regs = do
  child ← fork_task cur regs
  child_pml4 ← new_address_space
  change_task child (λ t. record t { base_pml4 = child_pml4; owner_pid = cur })
  change_task cur (λ t. record t { saved_registers = record t.saved_registers { rax = child } })
  parent ← gets (λ m. m.kernel.task_manager cur)
  share_pages parent.memory_data.page_count (λ a. add64 a 0x1000) cur child parent.base_pml4
      child_pml4 parent.memory_data.base_virtual_address
  change_memory_data child (λ t. record t {
    stack_base_virtual_address = parent.memory_data.stack_base_virtual_address;
    stack_page_count = parent.memory_data.stack_page_count;
  })
  share_pages parent.memory_data.stack_page_count (λ a. sub64 a 0x1000) cur child parent.base_pml4
      child_pml4 parent.memory_data.stack_base_virtual_address
  switch_task cur parent.base_pml4
  change_memory_data child (λ t. record t { kernel_stack_page_count = 5 })
  kernel_stack ← malloc_kernel_stack
  change_memory_data child (λ t. record t { kernel_stack_base_virtual_address = kernel_stack })
  switch_task cur parent.base_pml4
  change_task child (λ t. record t { owner_pid = cur })
  set_kernel (set_state child ready_process_state)
  pure (record regs { rax = child })
