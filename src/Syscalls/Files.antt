-- ===== src/Syscalls/Files.antt =====
-- READ and WRITE of a file, GETDENTS and SYSINFO of src/kernel/drivers/Userland/syscall.c. User memory is that of the
-- address space of the task.
use chud_os.Base.{ℕ, zero, suc, ◌+◌, ◌*◌, ◌/◌, ◌%◌, ◌^◌, ◌==◌, ltb, not, if◌then◌else◌, update}
use chud_os.Base.Run.{Run, ◌>>=◌, pure, fail}
use chud_os.Base.Words.{add64, sub64}
use chud_os.Memory.Frames.{Memory}
use chud_os.Memory.Malloc.{TaskMemory}
use chud_os.Tasks.{Kernel}
use chud_os.Tasks.Bytes.{store64}
use chud_os.FileSystem.{Disk, Fs, Location, Sector, Entry}
use chud_os.FileSystem.Entries.{read_entry}
use chud_os.FileSystem.Files.{read_file, write_file}
use chud_os.Syscalls.{Frame}

-- The first file system of the first floppy disk.
abbrev main_location : Location
main_location = record { drive = 0; partition = 1 }

abbrev set_bytes : (ℕ → ℕ) → Kernel → Kernel
set_bytes bytes k = record k { space = update k.space k.pml4_physical bytes }

-- `count` bytes at a user address become those of the bounce buffer.
abbrev copy_out : ℕ → ℕ → (ℕ → ℕ) → (ℕ → ℕ) → ℕ → ℕ
copy_out address count buffer bytes a =
    if ltb (sub64 a address) count then buffer (sub64 a address) else bytes a

module _ {d : Disk} where
  -- READ of a file. `none` where the length is not below the 0x1000 bytes of the bounce buffer, which the sectors
  -- then overrun.
  pub read_file_call : ℕ → ℕ → Sector → Frame → Kernel → Run (Fs d) Kernel
  read_file_call fuel cur bounce_buffer regs k =
      let descriptor = (k.task_manager cur).descriptors regs.rdx in
      if not descriptor.used
      then pure k
      else if ltb regs.rcx 0x1000
      then (do
        buffer ←
            read_file fuel main_location descriptor.gemfs_index bounce_buffer (regs.rcx / 512 + 1)
        pure (set_bytes (copy_out regs.rbx regs.rcx buffer (k.space k.pml4_physical)) k))
      else fail

  -- WRITE to a file, whose descriptor is not checked. `none` where the bounce buffer is overrun.
  pub write_file_call : ℕ → ℕ → Sector → Frame → Kernel → Run (Fs d) (Unit {0})
  write_file_call fuel cur bounce_buffer regs k =
      let buffer : Sector = λ i.
        if ltb i regs.rcx then k.space k.pml4_physical (add64 regs.rbx i) else bounce_buffer i in
      if ltb 0x1000 regs.rcx
      then fail
      else write_file fuel main_location buffer
          ((k.task_manager cur).descriptors regs.rdx).gemfs_index

  -- The loop of GETDENTS from the entry `entry` on, whose result is the number of siblings seen. The user's buffer is the
  -- source of its last memcpy, and is not written; `none` where `rounds` are not enough.
  pub count_siblings : ℕ → ℕ → ℕ → ℕ → Entry → Run (Fs d) ℕ
  count_siblings fuel zero i limit entry = fail
  count_siblings fuel (suc rounds) i limit entry =
      if not (ltb i limit) then pure i else if entry.sibling_index == 0 then pure i else do
        next ← read_entry fuel main_location entry.sibling_index
        count_siblings fuel rounds (suc i) limit next

  -- The entry is that of the descriptor's number, not of the file that it stands for.
  pub getdents_call : ℕ → ℕ → ℕ → Frame → Kernel → Run (Fs d) Frame
  getdents_call fuel rounds cur regs k =
      if not ((k.task_manager cur).descriptors regs.rdx).used then pure regs else do
        entry ← read_entry fuel main_location regs.rdx
        count ← count_siblings fuel rounds 0 regs.rcx entry
        pure (record regs { rax = count })

abbrev task_pages : TaskMemory → ℕ
task_pages t = add64 (add64 t.page_count t.stack_page_count) t.kernel_stack_page_count

-- SYSINFO: the four words of `struct sysinfo`.
pub sysinfo_call : ℕ → ℕ → Frame → Memory → Kernel → Kernel
sysinfo_call available_mem cur regs m k =
    let used = m.physical_pages_used * 0x1000 % 2 ^ 64 in
    let size = task_pages (k.task_manager cur).memory_data * 0x1000 in
    let user_info = regs.rbx in
    set_bytes
      (store64 (add64 user_info 24) size (
        store64 (add64 user_info 16) used (
          store64 (add64 user_info 8) (sub64 available_mem used)
            (store64 user_info m.total_mem (k.space k.pml4_physical)))))
      k
