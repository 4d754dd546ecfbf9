-- ===== src/Lib.antt =====
-- The kernel of ChudOS, a 64-bit hobby operating system in C: its memory manager, its task table, its
-- signals, its scheduler, its program loader, its system calls, its drivers and its file system, as
-- functions on explicit state.
--
-- The parts and where they are modelled (paths from the repository's root):
--   Base: shared names, lists, bit operations and machine words.
--   Memory: src/kernel/drivers/LowLevel/Memory.c with src/include/LowLevel/Memory.h.
--     Memory.Address: ExtractPageEntries, CalculatePageAddress, IsCanonical.
--     Memory.Frames: the table of physical frames, mem_SetBit, mem_ClearBit, mem_GetBit,
--       FindNextFreePhysical, FindNextFreePhysicalContinuous.
--     Memory.Walk: EnsureEntry, CalculatePagePhysicalEntryAddress, phys_addr.
--     Memory.Alloc: alloc_page. Memory.Malloc: malloc, malloc_specific, Create_User_Memory.
--     Memory.Free: free_page, alloc_page_no_invlpg, ParsePTE, find_first_present,
--       Enumerate_E820.
--   Gdt: the descriptors of src/kernel/drivers/LowLevel/GDT.c.
--   Tasks: src/kernel/drivers/Userland/Tasks.c: mem_access_ok, copy_from_user,
--     strcpy_from_user, TaskStack_Push, TaskStack_Pop, SetupTaskStack (Tasks.Arguments),
--     FindFreePID, RegisterTask, RegisterTaskStrict, KillTask, SignalOwner.
--   Signals: src/kernel/drivers/Userland/signals.c, all of it.
--   Text: the number conversions and pad_string of src/kernel/Libraries/std.c.
--   Console: print, its coloured variants (Console.Colours), printf (Console.Format), DrawBox (Console.Box), NewLine, Scroll,
--     setCursor, cls of src/kernel/Libraries/std.c over the screen
--     memory of src/kernel/drivers/Display/VGA.c.
--   Terminal: initVirtualTerminals, the ownership of the screen, and virtualprint, with what it appends
--     (Terminal) and refreshTerminals, which it ends with (Terminal.Refresh), of
--     src/kernel/drivers/Userland/terminal.c.
--   Interrupts: src/kernel/drivers/Devices/PIC.c, SetIDTEntry of
--     src/kernel/drivers/LowLevel/IDT.c.
--   Syscalls: EXIT, OPEN, WAIT, CLOSE, SETWFD, GETWFD, SIGREG and SIGRET of
--     src/kernel/drivers/Userland/syscall.c; READ from the standard input in Syscalls.Read, READ and
--     WRITE of files, GETDENTS and SYSINFO in Syscalls.Files, FORK in Syscalls.Fork, EXECVE in
--     Syscalls.Execve.
--   FileSystem: GemFS, src/kernel/drivers/filesys/gemfs.c with src/include/filesys/gemfs.h.
--     FileSystem.Layout: the packed structures in a sector's bytes.
--     FileSystem.Blocks: GemFS_BlockToLBA, GemFS_LBAToBlock, GemFS_GetFBB, GemFS_FindFreeBlock,
--       GemFS_FBB_GetBlock, GemFS_FBB_SetBlock.
--     FileSystem.Entries: GemFS_GetEntryBlock, GemFS_CreateEntry, GemFS_ReadEntry, GemFS_WriteEntry,
--       GemFS_ReadMainEntry, GemFS_FindFreeEntry.
--     FileSystem.Names: GemFS_Names_Equal, GemFS_Find_Index_By_Name, GemFS_Directory_to_Index.
--     FileSystem.Files: GemFS_mkdir, GemFS_CreateFile, GemFS_WriteFile, GemFS_ReadFile.
--     FileSystem.Init: GemFS_LoadPartitionTable, GemFS_FormatPartition, GemFS_Init.
--   Floppy: src/kernel/drivers/Devices/Disk/Floppy.c, without the set-up of the controller and of a
--     drive. Dma: src/include/Devices/ISA_DMA.h.
--   Timer: find_next_task, task_switch, ForceSwitch, TimerInterrupt, ParseSeconds of
--     src/kernel/drivers/LowLevel/Timer.c. Tasks.Release: free_task_memory and
--     free_task_memory_by_pml4 of src/kernel/drivers/Userland/Tasks.c.
--   Tasks.Machine: the task table and the page tables together.
--   Elf: LoadElf and LoadElfStrict of src/kernel/drivers/Userland/Tasks.c.
--   Keyboard: src/kernel/drivers/Devices/PS2/Keyboard.c. Pci: src/kernel/drivers/Devices/PCI.c.
--
-- State. `Memory` holds the globals of Memory.c and physical memory as 64-bit words at the addresses
-- of page-table entries; the kernel's pointers into the direct map are written as the physical
-- addresses behind them. `Kernel` holds the task table, the current PID, CR3 and the active task
-- state segment, and what each address space shows at each user address, byte by byte. A function of
-- the source that returns a value and changes state returns a pair.
--
-- A text buffer is the list of its characters, and an access outside of it gives `none`, which stands
-- for undefined behaviour. `Screen` holds the cursor and screen memory.
--
-- The file system works on a `Disk`, an interface of reads and writes of sectors by their number with
-- the laws that it relies on; the laws ask only for the bytes that a read delivers, as the floppy
-- driver programs its reads one byte short. It stands for the transfers of 1 to 128 sectors that the driver
-- makes with one command, without an error; GemFS fails in the model where it asks for others, for which
-- the driver repeats one place or programs 64 KiB. The program loader has the driver's reads with what they
-- lose: the last byte of each, and all behind 64 KiB. The floppy driver works on a `Controller`, its ports and
-- its interrupt, which may never come: then the driver waits for ever, which is failure in the model. Code that changes
-- a state and may fail is a function from the state to an optional result with the new state; failure stands for a division by zero, an access outside of an array
-- or fuel that runs out.
--
-- Numbers are natural numbers; an `int` that may be negative is its two's complement; where the source
-- computes in 64 bits the remainder is written out.
-- Loops are recursion on a number of rounds: the searches for a frame take one round for each page of
-- memory and one more, the searches for a PID one for each PID, and the theorems on their results
-- show that this is enough. GemFS finds an entry by a walk that creates missing entries, which walks
-- again: `fuel` bounds that nesting, and the loops over siblings. On a complete chain of entries fuel 1
-- is enough, to extend one 2, and for the search by name one more than there are siblings. The floppy driver's
-- fuel bounds its wait for the controller; 1 is enough while drive 0 is not seeking. A row of a terminal is drawn
-- with more fuel than it has columns, unless its text holds a backspace. The loops that free
-- the tables of a task search each table anew; `rounds` bounds each of them, and is not shown to be enough.
--
-- Not modelled: inline assembly other than its effect on CR3, the translation caches, port I/O other
-- than that of the floppy, DMA and PCI drivers, the messages on the screen, interrupts within a function,
-- and the parts that the list above does not name, such as InitMem and DrawDivider. Two address spaces do not share
-- memory in `Kernel`, so the signal frame of a task is seen in its own address space only.
pub mod Base
pub mod Memory
pub mod Gdt
pub mod Tasks
pub mod Signals
pub mod Timer
pub mod Text
pub mod Console
pub mod Interrupts
pub mod Pci
pub mod Keyboard
pub mod Elf
pub mod Syscalls
pub mod Terminal
pub mod Dma
pub mod FileSystem
pub mod Floppy
mod Tests
