-- ===== src/FileSystem/Init.antt =====
-- Partition tables and fresh partitions: lines 9-136 and 569-617 of gemfs.c.
pub mod Fresh
use chud_os.Base.{
  ℕ, zero, suc, ◌+◌, ◌-◌, ◌*◌, ◌/◌, ◌%◌, ◌^◌, ◌==◌, ltb, if◌then◌else◌, ◌&&◌, update, leb, Bool,
  true, false, Option, none, some, List, [], ◌∷◌, get_or,
}
use chud_os.Base.Run.{Run, ◌>>=◌, ◌>>◌, pure, gets, modify, fail}
use chud_os.Console.{calculate_string_length}
use chud_os.Text.Number.{int_to_char_array}
use chud_os.FileSystem.{Sector, Entry, Main, MbrPartition, DriveData, Disk, Fs, Location}
use chud_os.FileSystem.Layout.{encode_main, read_bytes}
use chud_os.FileSystem.Blocks.{Drives, partition_of, block_to_lba, lba_to_block, fbb_set_block}
use chud_os.FileSystem.Entries.{blank, set_main, read_main_entry, read_entry, write_entry}
use chud_os.FileSystem.Files.{copy_name, mkdir, create_file, write_file}

infixl 5 ◌>>>=◌
abbrev ◌>>>=◌ : {A B : Type 0} → Option A → (A → Option B) → Option B
none >>>= f = none
some a >>>= f = f a

-- `{'G','E','M','H'}`.
abbrev pub magic : List ℕ
magic = 71 ∷ 69 ∷ 77 ∷ 72 ∷ []

-- A little-endian 32-bit word of a sector.
abbrev pub word32 : Sector → ℕ → ℕ
word32 s o = s o + 0x100 * s (o + 1) + 0x10000 * s (o + 2) + 0x1000000 * s (o + 3)

-- The partition entry from offset `o` on; 16 bytes.
abbrev pub decode_partition : Sector → ℕ → MbrPartition
decode_partition s o = record {
  status = s o;
  partition_type = s (o + 4);
  lba_start = word32 s (o + 8);
  sector_count = word32 s (o + 12);
}

-- What the root's main entry is set to.
abbrev pub fresh_main : Main
fresh_main = record {
  check = magic;
  block_size = 1;
  entry = record {
    start = 0;
    size = 0;
    index = 0;
    parent_index = 0;
    sibling_index = 0;
    next_index_start = 0;
    flags = 0x17;
    reading_mask = 0;
    name = copy_name (82 ∷ 79 ∷ 79 ∷ 84 ∷ []) 5;
  };
}

-- The check of the four characters.
abbrev pub is_formatted : Main → Bool
is_formatted m =
    (get_or m.check 0 0 == 71)
    && (get_or m.check 1 0 == 69)
    && (get_or m.check 2 0 == 77)
    && (get_or m.check 3 0 == 72)

-- What the compiler defines: VERSION_MAJOR, VERSION_MINOR, VERSION_PATCH, BUILD and BUILD_CLASS. `scratch` is
-- what the stack held where int_to_char_array has its temporary buffer and its result.
pub record Build : Type 0 where
  pub major : ℕ
  pub minor : ℕ
  pub patch : ℕ
  pub number : ℕ
  pub class : ℕ
  pub scratch : List ℕ

-- `int_to_char_array(n, msg_num_char, 26, 0)`.
abbrev pub number_text : Build → ℕ → Option (List ℕ)
number_text build n = int_to_char_array build.scratch n (read_bytes 26 0 blank) 26 0

-- The loops that copy a number behind the text so far: the major version's digits all go to the same place.
abbrev pub put_major : List ℕ → ℕ → Sector → Sector
put_major text last_i s =
    let n = calculate_string_length text in
    if n == 0 then s else update s last_i (get_or text (n - 1) 0)

abbrev pub put_number : List ℕ → ℕ → Sector → Sector
put_number text last_i s p =
    if leb last_i p && ltb p (last_i + calculate_string_length text)
    then get_or text (p - last_i) 0
    else s p

-- Lines 90-132; "ChudOS Version " has 15 characters.
abbrev pub version_text : List ℕ
version_text =
    67 ∷ 104 ∷ 117 ∷ 100 ∷ 79 ∷ 83 ∷ 32 ∷ 86 ∷ 101 ∷ 114 ∷ 115 ∷ 105 ∷ 111 ∷ 110 ∷ 32 ∷ []

abbrev pub boot_text : Build → List ℕ → List ℕ → List ℕ → List ℕ → Sector
boot_text build major minor patch number =
    let end1 = 15 + calculate_string_length major in
    let s1 = update (put_major major 15 (put_number version_text 0 blank)) end1 46 in
    let end2 = suc end1 + calculate_string_length minor in
    let s2 = update (put_number minor (suc end1) s1) end2 46 in
    let end3 = suc end2 + calculate_string_length patch in
    let s3 = update (put_number patch (suc end2) s2) end3 58 in
    let end4 = suc end3 + calculate_string_length number in
    let s4 =
      update (put_number number (suc end3) s3) end4 (if build.class == 2 then 114 else 117) in
    update s4 (suc end4) 0

pub boot_message : Build → Option Sector
boot_message build = number_text build build.major >>>= (λ major.
    number_text build build.minor >>>= (λ minor. number_text build build.patch >>>= (λ patch.
      number_text build build.number
      >>>= (λ number. some (boot_text build major minor patch number)))))

module _ {d : Disk} where
  -- `H0` is 4; nothing is loaded for a hard disk.
  pub load_partition_table : ℕ → Run (Fs d) (Unit {0})
  load_partition_table drive =
      if ltb drive 4
      then modify (λ fs.
        let sector = d.read fs.disk drive 0 in
        record fs {
          drives = update fs.drives drive (record (fs.drives drive) {
            partition_table = λ i.
                if ltb i 4
                then decode_partition sector (446 + 16 * i)
                else (fs.drives drive).partition_table i;
          });
        })
      else pure tt

  -- The root and the table of used blocks: lines 16-51.
  unfoldable pub format_root : Location → Run (Fs d) (Unit {0})
  format_root l = do
    modify (λ fs. record fs {
      drives = set_main l fresh_main fs.drives;
      entry_buffer = encode_main fresh_main blank;
    })
    modify (λ fs. record fs {
      disk = d.write l.drive (block_to_lba l 1 fs.drives) fs.entry_buffer fs.disk;
    })
    modify (λ fs. record fs { fbb_size = 8; entry_buffer = blank })
    modify (λ fs. record fs {
      disk = d.write l.drive (block_to_lba l 2 fs.drives) fs.entry_buffer fs.disk;
    })
    fbb_set_block l 0
    fbb_set_block l 1
    fbb_set_block l 2
    fbb_set_block l 3
    fbb_set_block l 4
    fbb_set_block l 5

  -- A program of the system partition: the file, then the place where the image has it. Lines 75-78, 80-83, 85-88.
  pub install : ℕ → Location → List ℕ → ℕ → ℕ → ℕ → Run (Fs d) (Unit {0})
  install fuel l name name_len parent lba = do
    index ← create_file fuel l name name_len 0x0F parent 9
    entry ← read_entry fuel l index
    start ← gets (λ fs. lba_to_block l lba fs.drives)
    write_entry fuel (record { drive = 0; partition = l.partition }) index
        (record entry { start = start })

  -- The directories and programs of lines 69-88; the names are "dev", "zero", "urand", "etc", "bin",
  -- "shell.elf", "hello_world.elf" and "chudedit.elf". Returns the indices of etc and bin.
  pub format_tree : ℕ → Location → Run (Fs d) (ℕ × ℕ)
  format_tree fuel l = do
    mkdir fuel l (100 ∷ 101 ∷ 118 ∷ []) 4 0x17 0
    mkdir fuel l (122 ∷ 101 ∷ 114 ∷ 111 ∷ []) 5 0x17 1
    mkdir fuel l (117 ∷ 114 ∷ 97 ∷ 110 ∷ 100 ∷ []) 6 0x17 1
    etc_entry ← mkdir fuel l (101 ∷ 116 ∷ 99 ∷ []) 4 0x17 0
    bin_entry ← mkdir fuel l (98 ∷ 105 ∷ 110 ∷ []) 4 0x17 0
    install fuel l (115 ∷ 104 ∷ 101 ∷ 108 ∷ 108 ∷ 46 ∷ 101 ∷ 108 ∷ 102 ∷ []) 9 bin_entry 1500
    install fuel l
        (104 ∷ 101 ∷ 108 ∷ 108 ∷ 111 ∷ 95 ∷ 119 ∷ 111 ∷ 114 ∷ 108 ∷ 100 ∷ 46 ∷ 101 ∷ 108 ∷ 102 ∷ [])
        15 bin_entry 1600
    install fuel l (99 ∷ 104 ∷ 117 ∷ 100 ∷ 101 ∷ 100 ∷ 105 ∷ 116 ∷ 46 ∷ 101 ∷ 108 ∷ 102 ∷ []) 12
        bin_entry 1800
    pure (etc_entry, bin_entry)

  -- The rest of the formatting: lines 134-135. `message` is what the code builds from the version numbers.
  pub format_partition : ℕ → Build → Location → Run (Fs d) (Unit {0})
  format_partition fuel build l = do
    format_root l
    entries ← format_tree fuel l
    message ← gets (λ fs. boot_message build)
    elim message [
      | none ↦ fail
      | some buffer ↦ (do
        index ←
            create_file fuel l
              (98 ∷ 111 ∷ 111 ∷ 116 ∷ 95 ∷ 109 ∷ 115 ∷ 103 ∷ 46 ∷ 116 ∷ 120 ∷ 116 ∷ []) 13 0x0F
              entries.0 1
        write_file fuel l buffer index)
    ]

  -- A partition of type 0xC8 is formatted unless its main entry says that it is.
  abbrev pub init_partition : ℕ → Build → Location → Run (Fs d) (Unit {0})
  init_partition fuel build l = do
    partition ← gets (λ fs. partition_of l fs.drives)
    if partition.partition_type == 0xC8
        then (do
          main ← read_main_entry l
          if is_formatted main then pure tt else format_partition fuel build l)
        else pure tt

  pub init : ℕ → Build → ℕ → Run (Fs d) (Unit {0})
  init fuel build drive = do
    load_partition_table drive
    modify (λ fs. record fs {
      drives = update fs.drives drive (record (fs.drives drive) { drive_id = drive });
    })
    init_partition fuel build (record { drive = drive; partition = 0 })
    init_partition fuel build (record { drive = drive; partition = 1 })
    init_partition fuel build (record { drive = drive; partition = 2 })
    init_partition fuel build (record { drive = drive; partition = 3 })
