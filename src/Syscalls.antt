-- ===== src/Syscalls.antt =====
-- The system calls of src/kernel/drivers/Userland/syscall.c that work on the task table, and OPEN. A call
-- gets the interrupt frame and returns it with the kernel; reads of user memory are those of the address space
-- of the task.
pub mod Wait
pub mod Read
pub mod Fork
pub mod Files
pub mod Execve
mod Tests
use chud_os.Base.{
  ℕ, zero, suc, ◌+◌, ◌==◌, ltb, if◌then◌else◌, not, update, Bool, true, false, Option, none, some,
  List, [], ◌∷◌,
}
use chud_os.Base.Words.{add64}
use chud_os.Tasks.{
  InterruptRegisters, FileDescriptor, Task, Kernel, mem_set_cr3, set_task, set_registers,
  waiting_process_state, waiting_reason_child,
}
use chud_os.Tasks.Manage.{kill_task}
use chud_os.Signals.{send_signal, register_signal, signal_return}
use chud_os.Timer.{force_switch}
use chud_os.FileSystem.{Disk, Fs, Location}
use chud_os.FileSystem.Names.{not_found, directory_to_index}

abbrev pub Frame : Type 0
Frame = InterruptRegisters

-- An assignment to a field of the current task.
abbrev pub set_descriptor : ℕ → ℕ → FileDescriptor → Kernel → Kernel
set_descriptor cur fd x k =
    let task = k.task_manager cur in
    set_task cur (record task { descriptors = update task.descriptors fd x }) k

-- Lines 30-37.
pub enter : Frame → Kernel → Kernel
enter regs k = mem_set_cr3 (k.task_manager k.cur_pid).base_pml4 (set_registers k.cur_pid regs k)

-- EXIT: `SIGCHD`, which is 0, goes to the owner, and the call returns without line 398.
pub exit_call : ℕ → Frame → Kernel → Frame × Kernel
exit_call cur regs k =
    let owner = (k.task_manager cur).owner_pid in
    let told = if owner == 0 then k else send_signal owner 0 0 regs.rbx 0 0 k in
    force_switch regs (kill_task cur told)

-- WAIT. A PID that is no child's is ignored.
abbrev pub set_waiting : ℕ → ℕ → Kernel → Kernel
set_waiting cur reason k =
    set_task cur
      (record (k.task_manager cur) {
        process_state = waiting_process_state;
        waiting_reason = waiting_reason_child;
        child_waiting_reason = reason;
      })
      k

unfoldable pub wait_call : ℕ → Frame → Kernel → Frame × Kernel
wait_call cur regs k =
    if not ((k.task_manager regs.rbx).owner_pid == cur)
    then (regs, k)
    else force_switch regs (set_waiting cur regs.rdx k)

-- CLOSE. The code does not check the descriptor.
pub close_call : ℕ → Frame → Kernel → Frame × Kernel
close_call cur regs k = (
  regs,
  set_descriptor cur regs.rdx (record ((k.task_manager cur).descriptors regs.rdx) { used = false })
      k,
)

pub setwfd_call : ℕ → Frame → Kernel → Frame × Kernel
setwfd_call cur regs k =
    (regs, set_task cur (record (k.task_manager cur) { working_fd = regs.rdx }) k)

pub getwfd_call : ℕ → Frame → Kernel → Frame × Kernel
getwfd_call cur regs k = (record regs { rax = (k.task_manager cur).working_fd }, k)

pub sigreg_call : ℕ → Frame → Kernel → Frame × Kernel
sigreg_call cur regs k = (regs, register_signal cur regs.rbx regs.rcx k)

pub sigret_call : ℕ → Frame → Kernel → Frame × Kernel
sigret_call cur regs k =
    let returned = signal_return cur k in ((returned.task_manager cur).saved_registers, returned)

-- Line 398, behind the switch.
unfoldable pub leave : ℕ → Frame × Kernel → Frame × Kernel
leave cur (regs, k) = (regs, set_registers cur regs k)

-- The first of the 64 descriptors that is not used; without one the function has no result.
pub find_free_descriptor : ℕ → ℕ → Task → Option ℕ
find_free_descriptor zero i task = none
find_free_descriptor (suc rounds) i task =
    let rest = find_free_descriptor rounds (suc i) task in
    if (task.descriptors i).used then rest else some i

-- The string at an address. One that does not fit `open_bounce_buffer` with its terminator is copied beyond it.
pub string_at : ℕ → ℕ → (ℕ → ℕ) → Option (List ℕ)
string_at zero a bytes = none
string_at (suc rounds) a bytes =
    let rest = string_at rounds (add64 a 1) bytes in
    if bytes a == 0 then some [] else elim rest [ none ↦ none | some cs ↦ some (bytes a ∷ cs) ]

module _ {d : Disk} where
  abbrev open_at :
      ℕ → List ℕ → ℕ → ℕ → List ℕ → Frame → Kernel → Fs d → Option (Frame × Kernel × Fs d)
  open_at fuel scan cur fd [] regs k fs = some (record regs { rax = not_found }, k, fs)
  open_at fuel scan cur fd (c ∷ cs) regs k fs =
      elim (directory_to_index fuel (record { drive = 0; partition = 1 }) scan (c ∷ cs) fs) [
        | none ↦ none
        | some (index, fs') ↦ some (
            if index == not_found then (record regs { rax = not_found }, k, fs') else (
              record regs { rax = fd },
              set_descriptor cur fd
                  (record { gemfs_index = index; flags = 0; last_point = 0; used = true }) k,
              fs',
            ))
      ]

  -- OPEN. The descriptor is zeroed before anything is looked up.
  pub open_call : ℕ → List ℕ → ℕ → Frame → Kernel → Fs d → Option (Frame × Kernel × Fs d)
  open_call fuel scan cur regs k fs = elim (find_free_descriptor 64 0 (k.task_manager cur)) [
    | none ↦ none
    | some fd ↦
        let zeroed =
          set_descriptor cur fd
            (record { gemfs_index = 0; flags = 0; last_point = 0; used = false }) k in
        elim (string_at 256 regs.rbx (zeroed.space zeroed.pml4_physical)) [
          | none ↦ none
          | some path ↦ open_at fuel scan cur fd path regs zeroed fs
        ]
  ]
