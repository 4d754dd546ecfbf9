-- ===== src/FileSystem.antt =====
-- GemFS, src/kernel/drivers/filesys/gemfs.c with src/include/filesys/gemfs.h: the structures, the state, and
-- the disk below it. Messages are left out.
pub mod Layout
pub mod Blocks
pub mod Entries
pub mod Names
pub mod Files
pub mod Init
mod Tests
use chud_os.Base.{ℕ, ◌<◌, ◌≤◌, ◌≡◌, ◌≢◌, List}

-- The 512 bytes of a sector, by offset.
abbrev pub Sector : Type 0
Sector = ℕ → ℕ

-- `struct GemFS_Entry`; `name` has 128 characters.
pub record Entry : Type 0 where
  pub start : ℕ
  pub size : ℕ
  pub index : ℕ
  pub parent_index : ℕ
  pub sibling_index : ℕ
  pub next_index_start : ℕ
  pub flags : ℕ
  pub reading_mask : ℕ
  pub name : List ℕ

-- `struct GemFS_Main`; `check` has four characters.
pub record Main : Type 0 where
  pub check : List ℕ
  pub block_size : ℕ
  pub entry : Entry

-- `struct GemFS_MBRPartition`, without the bytes that nothing reads.
pub record MbrPartition : Type 0 where
  pub status : ℕ
  pub partition_type : ℕ
  pub lba_start : ℕ
  pub sector_count : ℕ

-- `struct GemFS_DriveData`, without `Is_GemFS`, which is never written.
pub record DriveData : Type 0 where
  pub drive_id : ℕ
  pub partition_table : ℕ → MbrPartition
  pub main_entries : ℕ → Main

-- The disks as GemFS sees them, through FLOPPY_Read_LBA and FLOPPY_Write_LBA, whose error codes it does not
-- look at: `read` is what the buffer holds afterwards. Sectors below `capacity` keep what is written
-- to them, and of each a read delivers the first `delivered` bytes at least.
pub record Disk : Type 1 where
  pub State : Type 0
  pub read : State → ℕ → ℕ → Sector
  pub write : ℕ → ℕ → Sector → State → State
  pub capacity : ℕ
  pub delivered : ℕ
  pub main_delivered : 184 ≤ delivered
  pub read-write_self :
      (s : State) (drive lba : ℕ) (x : Sector) (p : ℕ)
      → lba < capacity
      → p < delivered
      → read (write drive lba x s) drive lba p ≡ x p
  pub read-write_ne :
      (s : State) (drive lba lba' : ℕ) (x : Sector)
      → lba < capacity
      → lba' < capacity
      → lba ≢ lba'
      → read (write drive lba x s) drive lba' ≡ read s drive lba'

-- The globals of gemfs.c, the disk, and `stack`, what an entry on the stack holds before it is assigned.
pub record Fs (d : Disk) : Type 0 where
  pub drives : ℕ → DriveData
  pub disk : d.State
  pub entry_buffer : Sector
  pub fbb_block : Sector
  pub fbb_size : ℕ
  pub stack : Entry

-- `DriveID` and `Partition`.
pub record Location : Type 0 where
  pub drive : ℕ
  pub partition : ℕ
