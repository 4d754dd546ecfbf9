-- ===== src/FileSystem/Init/Fresh.antt =====
-- A partition after lines 16-51 of gemfs.c.
use chud_os.Base.{
  ℕ, zero, suc, ◌+◌, ◌/◌, ◌%◌, ◌^◌, ◌≤◌, ◌<◌, ◌==◌, update_self, ◌≡◌, ◌≢◌, refl, ap, ◌∙◌, arith,
  lt→ltb, ltb, if◌then◌else◌, Bool, true, some,
}
use chud_os.FileSystem.{Sector, Main, Disk, Fs, Location}
use chud_os.FileSystem.Layout.{
  IsMain, encode_main, decode_main, decode-encode_main, decode_main-eq, length-read_bytes,
}
use chud_os.FileSystem.Blocks.{
  Drives, main_of, partition_of, block_size_of, block_to_lba, fbb_set_block,
}
use chud_os.FileSystem.Blocks.Used.{used, marked, fbb_set-marked, used-marked}
use chud_os.FileSystem.Entries.{blank, set_main, read_main_entry}
use chud_os.FileSystem.Init.{fresh_main, format_root}

main_of-set_main : (l : Location) (m : Main) (drives : Drives) → main_of l (set_main l m drives) ≡ m
main_of-set_main l m drives =
    ap (λ x. x.main_entries l.partition) (update_self drives l.drive _)
    ∙ update_self ((drives l.drive).main_entries) l.partition m

partition_of-set_main :
    (l : Location) (m : Main) (drives : Drives)
    → partition_of l (set_main l m drives) ≡ partition_of l drives
partition_of-set_main l m drives =
    ap (λ x. x.partition_table l.partition) (update_self drives l.drive _)

-- Blocks of one sector follow each other from the partition's start.
one_sector :
    (l : Location) (drives : Drives) (k start : ℕ)
    → k < 0x1000
    → start < 2 ^ 32
    → block_size_of l drives ≡ 1
    → (partition_of l drives).lba_start ≡ start
    → block_to_lba l k drives ≡ k + start
unfolding block_to_lba
one_sector l drives k start low small one from = rw (one, from) (omega arith)

fresh_lba :
    (l : Location) (drives : Drives) (k : ℕ)
    → k < 0x1000
    → (partition_of l drives).lba_start < 2 ^ 32
    → block_to_lba l k (set_main l fresh_main drives) ≡ k + (partition_of l drives).lba_start
fresh_lba l drives k low small =
    one_sector l (set_main l fresh_main drives) k ((partition_of l drives).lba_start) low small
      (ap (λ m. m.block_size) (main_of-set_main l fresh_main drives))
      (ap (λ p. p.lba_start) (partition_of-set_main l fresh_main drives))

fresh_main-IsMain : IsMain fresh_main
fresh_main-IsMain = record {
  check = refl;
  block_size = omega arith;
  entry = record {
    start = omega arith;
    size = omega arith;
    index = omega arith;
    parent_index = omega arith;
    sibling_index = omega arith;
    next_index_start = omega arith;
    name = length-read_bytes 128 0 _;
  };
}

-- Bit `c` of a table of used blocks that stands in a sector.
abbrev pub bit_of : Sector → ℕ → Bool
bit_of s c = s c / 2 ^ (c % 8) % 2 == 1

module _ {d : Disk} (l : Location) (fs : Fs d) where
  -- The state before the first block is marked, and the states after.
  abbrev before : Fs d
  before = record fs {
    drives = set_main l fresh_main fs.drives;
    entry_buffer = blank;
    fbb_size = 8;
    disk = d.write l.drive (block_to_lba l 2 (set_main l fresh_main fs.drives)) blank (
        d.write l.drive (block_to_lba l 1 (set_main l fresh_main fs.drives))
          (encode_main fresh_main blank) fs.disk);
  }

  unfoldable marks : ℕ → Fs d
  marks zero = before
  marks (suc n) = marked l n (marks n)

  marks-drives : (n : ℕ) → (marks n).drives ≡ set_main l fresh_main fs.drives
  unfolding marks
  marks-drives zero = refl
  marks-drives (suc n) = marks-drives n

  marks-run : (n : ℕ) → n < 512 → fbb_set_block l n (marks n) ≡ some (tt, marks (suc n))
  unfolding marks
  marks-run n low =
      fbb_set-marked l (marks n) n
        (ap (block_size_of l) (marks-drives n)
          ∙ ap (λ m. m.block_size) (main_of-set_main l fresh_main fs.drives))
        low

  marks-used :
      (n c : ℕ)
      → block_to_lba l 4 (set_main l fresh_main fs.drives) < d.capacity
      → n ≤ 512
      → c < 512
      → c < d.delivered
      → used l (marks n) c ≡ (if ltb c n then true else used l before c)
  unfolding marks
  marks-used zero c fits low hc whole = ground arith
  marks-used (suc n) c fits low hc whole =
      used-marked l (marks n) n c (rw (marks-drives n) fits) (omega arith) hc whole
      ∙ (let below = marks-used n c fits (omega arith) hc whole in ground (arith, below))

  marks-other :
      (n lba : ℕ)
      → block_to_lba l 4 (set_main l fresh_main fs.drives) < d.capacity
      → lba < d.capacity
      → block_to_lba l 4 (set_main l fresh_main fs.drives) ≢ lba
      → d.read ((marks n).disk) l.drive lba ≡ d.read before.disk l.drive lba
  unfolding marks
  marks-other zero lba h4 hl ne = refl
  marks-other (suc n) lba h4 hl ne =
      d.read-write_ne ((marks n).disk) l.drive (block_to_lba l 4 (marks n).drives) lba _
        (rw (marks-drives n) h4) hl (rw (marks-drives n) ne)
      ∙ marks-other n lba h4 hl ne

  module _ (small : (partition_of l fs.drives).lba_start < 2 ^ 32)
      (fits : 4 + (partition_of l fs.drives).lba_start < d.capacity) where
    abbrev start : ℕ
    start = (partition_of l fs.drives).lba_start

    abbrev at : ℕ → ℕ
    at k = block_to_lba l k (set_main l fresh_main fs.drives)

    at_block : (k : ℕ) → k < 0x1000 → block_to_lba l k (set_main l fresh_main fs.drives) ≡ k + start
    at_block k low = fresh_lba l fs.drives k low small

    disk_at : (k : ℕ) → k < 5 → at k < d.capacity
    disk_at k low = omega (arith, at_block k (omega arith), fits)

    apart :
        (j k : ℕ)
        → j < 0x1000
        → k < 0x1000
        → j ≢ k
        → block_to_lba l j (set_main l fresh_main fs.drives)
          ≢ block_to_lba l k (set_main l fresh_main fs.drives)
    apart j k hj hk ne = let a = at_block j hj in let b = at_block k hk in omega arith

    before-used : (c : ℕ) → used l before c ≡ bit_of (d.read fs.disk l.drive (4 + start)) c
    unfolding used
    before-used c =
        ap (λ x. bit_of x c)
          (d.read-write_ne _ l.drive (at 2) (at 4) blank (disk_at 2 (omega arith))
              (disk_at 4 (omega arith)) (apart 2 4 (omega arith) (omega arith) (omega arith))
            ∙ d.read-write_ne fs.disk l.drive (at 1) (at 4) (encode_main fresh_main blank)
                (disk_at 1 (omega arith)) (disk_at 4 (omega arith))
                (apart 1 4 (omega arith) (omega arith) (omega arith))
            ∙ ap (d.read fs.disk l.drive) (at_block 4 (omega arith)))

    main-read :
        decode_main
          (d.read ((marks 6).disk) l.drive (block_to_lba l 1 (set_main l fresh_main fs.drives)))
        ≡ fresh_main
    main-read =
        let sector =
          marks-other 6 (at 1) (disk_at 4 (omega arith)) (disk_at 1 (omega arith))
            (apart 4 1 (omega arith) (omega arith) (omega arith))
          ∙ d.read-write_ne _ l.drive (at 2) (at 1) blank (disk_at 2 (omega arith))
              (disk_at 1 (omega arith)) (apart 2 1 (omega arith) (omega arith) (omega arith)) in
        let on_disk : at 1 < d.capacity = omega (arith, at_block 1 (omega arith), fits) in
        ap decode_main sector
        ∙ decode_main-eq _ (encode_main fresh_main blank) (λ p hp.
          d.read-write_self fs.disk l.drive (at 1) (encode_main fresh_main blank) p on_disk
            (omega (arith, d.main_delivered)))
        ∙ decode-encode_main fresh_main blank fresh_main-IsMain

    format_root-marks : format_root l fs ≡ some (tt, marks 6)
    unfolding format_root marks
    format_root-marks =
        rw
          (
            marks-run 0 (omega arith),
            marks-run 1 (omega arith),
            marks-run 2 (omega arith),
            marks-run 3 (omega arith),
            marks-run 4 (omega arith),
            marks-run 5 (omega arith),
          )
          refl

    -- A freshly formatted partition of a floppy is recognised: after GemFS_FormatPartition has written
    -- the root and the table of used blocks, GemFS_ReadMainEntry reads back the main entry that was
    -- written, blocks 0 to 5 are used, and of every other block below 512 the table says what the
    -- sector of block 4 said before the formatting, as far as a read delivers it. The partition's
    -- start fits 32 bits, and its blocks 0 to 4 are on the disk.
    pub format_root-fresh :
        l.drive < 4
        → (after : Fs d) × (read_back : Fs d) × (format_root l fs ≡ some (tt, after))
          × (read_main_entry l after ≡ some (fresh_main, read_back))
          × ((c : ℕ)
              → c < 512
              → c < d.delivered
              → used l after c
                ≡ (if ltb c 6 then true else bit_of (d.read fs.disk l.drive (4 + start)) c))
    unfolding read_main_entry
    format_root-fresh floppy =
        let is_floppy : ltb l.drive 4 ≡ true = lt→ltb l.drive 4 floppy in
        let main =
          ap (λ drives. decode_main (d.read ((marks 6).disk) l.drive (block_to_lba l 1 drives)))
            (marks-drives 6)
          ∙ main-read in
        let on_disk : at 4 < d.capacity = omega (arith, at_block 4 (omega arith), fits) in
        (
          marks 6,
          record (marks 6) {
            entry_buffer = d.read ((marks 6).disk) l.drive (block_to_lba l 1 (marks 6).drives);
            drives = set_main l fresh_main (marks 6).drives;
          },
          format_root-marks,
          rw (is_floppy, main) refl,
          λ c hc whole.
              marks-used 6 c on_disk (omega arith) hc whole
              ∙ ap (λ b. if ltb c 6 then true else b) (before-used c),
        )
