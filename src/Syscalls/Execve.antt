-- ===== src/Syscalls/Execve.antt =====
-- EXECVE of src/kernel/drivers/Userland/syscall.c, with LoadElfStrict_GemFS and LoadElf_GemFS of src/kernel/drivers/
-- Userland/Tasks.c. The loader reads the sectors of the disk that the file system is on. What EXECVE copies of its
-- arguments into the kernel is not used, and left out.
use chud_os.Base.{ℕ, ◌==◌, not, if◌then◌else◌, bit_and, List, [], none, some}
use chud_os.Base.Run.{Run, ◌>>=◌, ◌>>◌, pure, gets}
use chud_os.Tasks.{FileDescriptor, creation_process_state, ready_process_state}
use chud_os.Tasks.Release.{free_task_memory_by_pml4}
use chud_os.Tasks.Machine.{Machine, change_task, new_address_space}
use chud_os.Elf.Load.{load_elf, load_elf_strict}
use chud_os.Timer.{force_switch}
use chud_os.FileSystem.{Disk, Fs, Location, Entry}
use chud_os.FileSystem.Blocks.{block_to_lba}
use chud_os.FileSystem.Entries.{read_entry}
use chud_os.Syscalls.{Frame}

-- The system with its file system.
pub record System (d : Disk) : Type 0 where
  pub machine : Machine
  pub files : Fs d

abbrev release : ℕ → ℕ → ℕ → ℕ → Run Machine (Unit {0})
release virtual_memory_size rounds kernel_pml4 pml4 m =
    elim (free_task_memory_by_pml4 virtual_memory_size rounds kernel_pml4 pml4 m.memory) [
      | none ↦ none
      | some memory ↦ some (
        tt,
        record {
          kernel = record m.kernel { pml4_physical = memory.pml4_physical };
          memory = memory;
        },
      )
    ]

abbrev switch_away : ℕ → Run Machine Frame
switch_away cur m =
    let (frame, k) = force_switch (m.kernel.task_manager cur).saved_registers m.kernel in
    some
      (frame, record { kernel = k; memory = record m.memory { pml4_physical = k.pml4_physical } })

module _ {d : Disk} where
  abbrev on_machine : {A : Type 0} → Run Machine A → Run (System d) A
  on_machine run s = elim (run s.machine) [
    | none ↦ none
    | some (a, m) ↦ some (a, record s { machine = m })
  ]

  abbrev on_files : {A : Type 0} → Run (Fs d) A → Run (System d) A
  on_files run s = elim (run s.files) [
    | none ↦ none
    | some (a, fs) ↦ some (a, record s { files = fs })
  ]

  -- The sectors of a drive, and where a file's blocks start on it.
  abbrev sectors_of : Location → Fs d → ℕ → ℕ → ℕ
  sectors_of l fs lba = d.read fs.disk l.drive lba

  abbrev file_lba : Location → Entry → Fs d → ℕ
  file_lba l entry fs = block_to_lba l entry.start fs.drives

  pub load_elf_gemfs : ℕ → Location → ℕ → (ℕ → ℕ) → Run (System d) ℕ
  load_elf_gemfs fuel l index past = do
    entry ← on_files (read_entry fuel l index)
    fs ← gets (λ s. s.files)
    on_machine (load_elf l.drive (sectors_of l fs) (file_lba l entry fs) past)

  pub load_elf_strict_gemfs : ℕ → Location → ℕ → (ℕ → ℕ) → ℕ → ℕ → List (List ℕ) → Run (System d) ℕ
  load_elf_strict_gemfs fuel l index past pid new_pml4 argv = do
    entry ← on_files (read_entry fuel l index)
    fs ← gets (λ s. s.files)
    on_machine
        (load_elf_strict l.drive (sectors_of l fs) (file_lba l entry fs) past pid new_pml4 argv)

  -- The new program gets no arguments: its count is given as 0. That the file is no program is not noticed.
  pub replace_program : ℕ → ℕ → ℕ → ℕ → (ℕ → ℕ) → ℕ → FileDescriptor → Run (System d) Frame
  replace_program fuel virtual_memory_size rounds kernel_pml4 past cur descriptor = do
    old ← gets (λ s. s.machine.kernel.task_manager cur)
    new_pml4 ← on_machine new_address_space
    on_machine (change_task cur (λ t. record t { process_state = creation_process_state }))
    load_elf_strict_gemfs fuel (record { drive = 0; partition = 1 }) descriptor.gemfs_index past cur
        new_pml4 []
    on_machine (release virtual_memory_size rounds kernel_pml4 old.base_pml4)
    on_machine (
        change_task cur
          (λ t. record t { owner_pid = old.owner_pid; process_state = ready_process_state }))
    on_machine (switch_away cur)

  -- The descriptor must be in use, and its file be marked as a program; nothing happens otherwise.
  pub execve_call : ℕ → ℕ → ℕ → ℕ → (ℕ → ℕ) → ℕ → Frame → Run (System d) Frame
  execve_call fuel virtual_memory_size rounds kernel_pml4 past cur regs = do
    descriptor ← gets (λ s. (s.machine.kernel.task_manager cur).descriptors regs.rdx)
    if not descriptor.used then pure regs else do
      entry ←
          on_files (read_entry fuel (record { drive = 0; partition = 1 }) descriptor.gemfs_index)
      if not (bit_and entry.flags 0b1000 == 0b1000)
          then pure regs
          else replace_program fuel virtual_memory_size rounds kernel_pml4 past cur descriptor
