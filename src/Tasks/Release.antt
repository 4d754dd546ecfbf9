-- ===== src/Tasks/Release.antt =====
-- free_task_memory and free_task_memory_by_pml4 of src/kernel/drivers/Userland/Tasks.c. They free the tables of an
-- address space, and not the pages that the last ones map.
use chud_os.Base.{ℕ, zero, suc, false, ltb, ◌==◌, if◌then◌else◌, Option, none, some}
use chud_os.Base.Words.{add64}
use chud_os.Memory.Frames.{Memory, virtual_memory_barrier}
use chud_os.Memory.Walk.{entry_address, slot, write_word, zero_page, phys_addr}
use chud_os.Memory.Alloc.{PageDetails}
use chud_os.Memory.Free.{free_page, find_first_present}
use chud_os.Tasks.{Kernel}

-- A table, as a page of the kernel's half. Its flags are not set, and free_page does not read them.
abbrev table_page : ℕ → PageDetails
table_page physical_address = record {
  flags = 0;
  execute_disable = false;
  virtual_address = add64 physical_address virtual_memory_barrier;
  physical_address = physical_address;
}

-- The nested loops, which the source writes out for three levels: each entry that is present, below `limit`,
-- loses the tables under it, is freed and is cleared. The index is searched anew each time; `none` where
-- `rounds` are not enough for a loop.
pub free_tables : ℕ → ℕ → ℕ → ℕ → ℕ → ℕ → Memory → Option Memory
free_tables virtual_memory_size rounds zero fuel limit table m = some m
free_tables virtual_memory_size rounds (suc levels) zero limit table m = none
free_tables virtual_memory_size rounds (suc levels) (suc fuel) limit table m =
    let index = find_first_present table m in
    let child = entry_address (m.word (slot table index)) in
    if ltb index limit
    then elim (free_tables virtual_memory_size rounds levels rounds 512 child m) [
      | none ↦ none
      | some inner ↦
          let entry = entry_address (inner.word (slot table index)) in
          let page = record (table_page entry) {
            virtual_address = add64 child virtual_memory_barrier;
          } in
          free_tables virtual_memory_size rounds (suc levels) fuel limit table
            (write_word (slot table index) 0 (free_page virtual_memory_size page inner).1)
    ]
    else some m

-- The end of both functions: back to the kernel's tables, and the task's own one is cleared and freed.
pub free_top_table : ℕ → ℕ → ℕ → Memory → Memory
free_top_table virtual_memory_size kernel_pml4 pml4 m =
    let switched = record m { pml4_physical = kernel_pml4 } in
    let cleared = record switched { word = zero_page pml4 switched.word } in
    let (physical, walked) = phys_addr (add64 pml4 virtual_memory_barrier) cleared in
    let page = record (table_page physical) {
      virtual_address = add64 pml4 virtual_memory_barrier;
    } in
    (free_page virtual_memory_size page walked).1

pub free_task_memory_by_pml4 : ℕ → ℕ → ℕ → ℕ → Memory → Option Memory
free_task_memory_by_pml4 virtual_memory_size rounds kernel_pml4 pml4 m =
    elim (free_tables virtual_memory_size rounds 3 rounds 256 pml4
      (record m { pml4_physical = pml4 })) [
        | none ↦ none
        | some emptied ↦
            let freed = free_top_table virtual_memory_size kernel_pml4 pml4 emptied in
            some (
              if m.pml4_physical == pml4
              then freed
              else record freed { pml4_physical = m.pml4_physical })
      ]

-- The same loops over the task's tables, after the task is made the current one, which it stays.
pub free_task_memory : ℕ → ℕ → ℕ → ℕ → Kernel → Memory → Option (Kernel × Memory)
free_task_memory virtual_memory_size rounds kernel_pml4 pid k m =
    let pml4 = (k.task_manager pid).base_pml4 in
    elim (free_task_memory_by_pml4 virtual_memory_size rounds kernel_pml4 pml4 m) [
      | none ↦ none
      | some freed ↦ some (record k { cur_pid = pid; pml4_physical = freed.pml4_physical }, freed)
    ]
