-- ===== src/Memory/Malloc.antt =====
-- malloc, malloc_specific and Create_User_Memory of kernel/drivers/LowLevel/Memory.c, with
-- `TaskMemoryDefinition` of include/LowLevel/Memory.h.
pub mod Kernel
pub mod User
use chud_os.Base.{
  ℕ, ◌+◌, ◌*◌, ◌/◌, ◌%◌, ◌^◌, Bool, true, ◌-◌, ◌&&◌, ltb, leb, ◌==◌, if◌then◌else◌, Option, none,
  some,
}
use chud_os.Base.Words.{add64, sub64}
use chud_os.Memory.Frames.{Memory, set_flags, find_next_free_physical}
use chud_os.Memory.Walk.{kernel_flags, phys_addr, zero_page}
use chud_os.Memory.Alloc.{PageDetails, Mapping, mapped, null, halted, alloc_page}

pub record TaskMemory : Type 0 where
  pub base_virtual_address : ℕ
  pub page_count : ℕ
  pub stack_base_virtual_address : ℕ
  pub stack_page_count : ℕ
  pub kernel_stack_base_virtual_address : ℕ
  pub kernel_stack_page_count : ℕ
  pub heap_virtual_address : ℕ

-- One page above the pages that the task has.
abbrev pub next_page_address : TaskMemory → ℕ
next_page_address t = add64 (add64 t.base_virtual_address (t.page_count * 0x1000 % 2 ^ 64)) 0x1000

abbrev pub malloc_page : TaskMemory → ℕ → PageDetails
malloc_page t free = record {
  flags = kernel_flags;
  execute_disable = true;
  virtual_address = next_page_address t;
  physical_address = free;
}

-- What malloc does once alloc_page has answered.
pub malloc_end : TaskMemory → ℕ → Mapping × Memory → Mapping × TaskMemory × Memory
malloc_end t frame (mapped va, m) = (mapped va, t, set_flags frame 0b101 m)
malloc_end t frame (null, m) = (
  null,
  record t { page_count = sub64 t.page_count 1 },
  set_flags frame 0 (set_flags frame 0b101 m),
)
malloc_end t frame (halted, m) = (halted, t, m)

pub malloc : TaskMemory → Memory → Mapping × TaskMemory × Memory
unfolding malloc_end
malloc t m =
    let free = find_next_free_physical m in
    let frame = free / 0x1000 in
    malloc_end (record t { page_count = add64 t.page_count 1 }) frame
      (alloc_page (malloc_page t free) (set_flags frame 0b101 m))

-- The caller's flags are `permissions->flags` and `permissions->Execute_Disable`.
malloc_specific_end : TaskMemory → Mapping × Memory → Mapping × TaskMemory × Memory
malloc_specific_end t (mapped va, m) =
    (mapped va, record t { page_count = add64 t.page_count 1 }, m)
malloc_specific_end t (null, m) = (null, t, m)
malloc_specific_end t (halted, m) = (halted, t, m)

pub malloc_specific : TaskMemory → ℕ → ℕ → Bool → Memory → Mapping × TaskMemory × Memory
unfolding malloc_specific_end
malloc_specific t requested flags execute_disable m =
    let page : PageDetails = record {
      flags = flags;
      execute_disable = execute_disable;
      virtual_address = next_page_address t;
      physical_address = requested;
    } in
    malloc_specific_end t (alloc_page page m)

-- The page at `new` becomes the copy of the page at `old` with its first 0x800 bytes zero: the
-- memset, the memcpy and the second memset of Create_User_Memory, over the frame that malloc mapped.
abbrev pub copy_upper_half : ℕ → ℕ → (ℕ → ℕ) → ℕ → ℕ
copy_upper_half new old word p =
    if leb new p && ltb p (new + 0x1000)
    then (if ltb p (new + 0x800) then 0 else zero_page new word (old + p - new))
    else word p

-- `none` where malloc gives no page: the kernel then writes through a null pointer.
create_end : Mapping × TaskMemory × Memory → Option (ℕ × TaskMemory × Memory)
create_end (mapped va, t, m) =
    let (new, m') = phys_addr va m in
    some (new, t, record m' { word = copy_upper_half new m'.pml4_physical m'.word })
create_end (null, t, m) = none
create_end (halted, t, m) = none

pub create_user_memory : TaskMemory → Memory → Option (ℕ × TaskMemory × Memory)
unfolding create_end
create_user_memory t m = create_end (malloc t m)
