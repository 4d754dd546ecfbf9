-- ===== src/Elf/Load.antt =====
-- LoadElf and LoadElfStrict of src/kernel/drivers/Userland/Tasks.c. The body that the two functions share is one
-- definition; `none` is where the processor is stopped or a null pointer is written through.
use chud_os.Base.{
  ℕ, zero, suc, ◌+◌, ◌*◌, Bool, true, false, ltb, leb, ◌&&◌, ◌==◌, if◌then◌else◌, none, some, List,
  [], ◌∷◌,
}
use chud_os.Base.Words.{add64}
use chud_os.Base.Run.{Run, ◌>>=◌, ◌>>◌, pure, gets, when}
use chud_os.Memory.Frames.{Memory, find_next_free_physical}
use chud_os.Memory.Walk.{user_flags}
use chud_os.Memory.Alloc.{PageDetails, mapped, null, halted, alloc_page}
use chud_os.Tasks.{set_task, set_state, creation_process_state, ready_process_state}
use chud_os.Tasks.Manage.{find_free_pid, register_task, register_task_strict}
use chud_os.Tasks.Arguments.{setup_task_stack}
use chud_os.Tasks.Machine.{
  Machine, set_kernel, set_address_space, change_task, change_memory_data, change_bytes,
  malloc_kernel_stack, new_address_space,
}
use chud_os.Elf.{
  ElfHeader64, ProgramHeader64, elf_header, program_header, is_program, pt_load, page_start,
  num_pages, alloc_pages, read_lba, read_segment,
}

abbrev stack_base : ℕ
stack_base = 0x7FFF0000

abbrev user_priority : ℕ
user_priority = 20

stack_page : Memory → PageDetails
stack_page m = record {
  flags = user_flags;
  execute_disable = false;
  virtual_address = page_start stack_base;
  physical_address = find_next_free_physical m;
}

-- The page of the stack, which is written at once.
map_stack : Run Machine (Unit {0})
unfolding stack_page
map_stack l =
    let (mapping, m) = alloc_page (stack_page l.memory) l.memory in
    elim mapping [
      | mapped va ↦
          change_bytes (λ bytes p. if leb va p && ltb p (va + 0x1000) then 0 else bytes p)
            (record l { memory = m })
      | null ↦ none
      | halted ↦ none
    ]

map_pages : ℕ → ProgramHeader64 → Run Machine (Unit {0})
map_pages pid h l = elim (alloc_pages (num_pages h) (page_start h.p_vaddr) h.p_flags l.memory) [
  | none ↦ none
  | some m ↦
      change_memory_data pid (λ t. record t { page_count = add64 t.page_count (num_pages h) })
        (record l { memory = m })
]

-- One round of the loop over the program headers.
pub load_segment : ℕ → (ℕ → ℕ → ℕ) → ℕ → ProgramHeader64 → Run Machine (Unit {0})
unfolding map_pages
load_segment pid sectors lba h = when (h.p_type == pt_load) (do
  change_memory_data pid (λ t.
      if t.base_virtual_address == 0 then record t { base_virtual_address = h.p_vaddr } else t)
  map_pages pid h
  change_bytes (read_segment sectors lba h))

-- The rounds from header `i` on, in the file's first bytes.
pub load_segments : ℕ → ℕ → ℕ → (ℕ → ℕ → ℕ) → ℕ → (ℕ → ℕ) → ℕ → Run Machine (Unit {0})
load_segments zero i pid sectors lba buffer e_phoff = pure tt
load_segments (suc rounds) i pid sectors lba buffer e_phoff = do
  load_segment pid sectors lba (program_header buffer (e_phoff + i * 0x38))
  load_segments rounds (suc i) pid sectors lba buffer e_phoff

-- From the switch to the new address space up to the registration. Only LoadElf sets the heap address.
pub load_image : Bool → ℕ → ℕ → (ℕ → ℕ → ℕ) → ℕ → (ℕ → ℕ) → ElfHeader64 → Run Machine ℕ
unfolding map_stack
load_image sets_heap pid new_pml4 sectors lba buffer header = do
  set_address_space new_pml4
  last_pid ← gets (λ l. l.kernel.cur_pid)
  set_kernel (λ k. record k { cur_pid = pid })
  change_task pid (λ t. record t {
    memory_data = record t.memory_data { base_virtual_address = 0 };
    base_pml4 = new_pml4;
    process_state = creation_process_state;
  })
  map_stack
  change_memory_data pid
      (λ t. record t { stack_base_virtual_address = stack_base; stack_page_count = 1 })
  load_segments header.e_phnum 0 pid sectors lba buffer header.e_phoff
  when sets_heap (
      change_memory_data pid (λ t. record t {
        heap_virtual_address = add64 t.base_virtual_address (t.page_count * 0x1000);
      }))
  change_memory_data pid (λ t. record t { kernel_stack_page_count = 5 })
  kernel_stack ← malloc_kernel_stack
  change_memory_data pid (λ t. record t { kernel_stack_base_virtual_address = kernel_stack })
  set_kernel (λ k. record k { cur_pid = last_pid })
  pure kernel_stack

-- From the registration on. The result is the base address.
pub finish_task : ℕ → ℕ → List (List ℕ) → ℕ → Run Machine ℕ
finish_task pid kernel_stack argv prev_pml4 = do
  change_memory_data pid (λ t. record t {
    stack_base_virtual_address = stack_base;
    stack_page_count = 1;
    kernel_stack_page_count = 5;
    kernel_stack_base_virtual_address = kernel_stack;
  })
  set_kernel (λ k.
      set_task pid
        (record (k.task_manager pid) {
          user_tss = record (k.task_manager 0).user_tss { rsp0 = kernel_stack };
        })
        k)
  set_kernel (setup_task_stack pid argv)
  set_kernel (set_state pid ready_process_state)
  set_address_space prev_pml4
  gets (λ l. (l.kernel.task_manager pid).memory_data.base_virtual_address)

-- The first eight sectors of a floppy disk; a drive of another kind is not read. `past` is what lies in memory
-- behind the buffer.
pub program_buffer : ℕ → (ℕ → ℕ → ℕ) → ℕ → (ℕ → ℕ) → ℕ → ℕ
program_buffer drive sectors lba past p =
    if leb 0x1000 p then past p else if ltb drive 0x80 then read_lba sectors lba 0 8 past p else 0

-- "test arg".
abbrev test_arg : List ℕ
test_arg = 116 ∷ 101 ∷ 115 ∷ 116 ∷ 32 ∷ 97 ∷ 114 ∷ 103 ∷ []

-- 0 stands for NULL.
pub load_elf : ℕ → (ℕ → ℕ → ℕ) → ℕ → (ℕ → ℕ) → Run Machine ℕ
load_elf drive sectors lba past =
    let buffer = program_buffer drive sectors lba past in
    let header = elf_header buffer in
    if is_program header
    then (do
      new_pml4 ← new_address_space
      prev_pml4 ← gets (λ l. l.kernel.pml4_physical)
      pid ← gets (λ l. find_free_pid l.kernel)
      kernel_stack ← load_image true pid new_pml4 sectors lba buffer header
      t ← gets (λ l. (l.kernel.task_manager pid).memory_data)
      set_kernel (λ k.
          (register_task t.base_virtual_address header.e_entry t.page_count user_priority
            (stack_base + 4080) new_pml4 k).1)
      finish_task pid kernel_stack (test_arg ∷ []) prev_pml4)
    else pure 0

pub load_elf_strict : ℕ → (ℕ → ℕ → ℕ) → ℕ → (ℕ → ℕ) → ℕ → ℕ → List (List ℕ) → Run Machine ℕ
load_elf_strict drive sectors lba past pid new_pml4 argv =
    let buffer = program_buffer drive sectors lba past in
    let header = elf_header buffer in
    if is_program header
    then (do
      prev_pml4 ← gets (λ l. l.kernel.pml4_physical)
      kernel_stack ← load_image false pid new_pml4 sectors lba buffer header
      t ← gets (λ l. (l.kernel.task_manager pid).memory_data)
      set_kernel (λ k.
          (register_task_strict t.base_virtual_address header.e_entry t.page_count user_priority
            (stack_base + 4080) new_pml4 pid k).1)
      finish_task pid kernel_stack argv prev_pml4)
    else pure 0
