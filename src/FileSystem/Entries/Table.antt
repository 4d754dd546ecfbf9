-- ===== src/FileSystem/Entries/Table.antt =====
-- Reading and writing the entries of a partition whose chain of entry blocks reaches far enough.
use chud_os.Base.{
  ℕ, zero, suc, ◌+◌, ◌<◌, ◌==◌, ==_iff, ==_of_ne, ◌≡◌, ◌≢◌, refl, sym, ap, ◌∙◌, arith, inl, inr,
  if◌then◌else◌, false, some, Bool-cases, List, length, get_or,
}
use mathlib.Core.Path.{subst}
use chud_os.Base.Run.{Run}
use chud_os.FileSystem.{Sector, Entry, Disk, Fs, Location}
use chud_os.FileSystem.Layout.{
  IsEntry, encode_entry, decode_entry, decode-encode_entry, decode_entry-eq,
}
use chud_os.FileSystem.Blocks.{main_of, block_to_lba}
use chud_os.FileSystem.Entries.{
  blank, entry_at, create_entry_by, read_entry_by, write_entry_by, walk, get_entry_block,
  read_entry, write_entry,
}

module _ {d : Disk} where
  -- `blocks` are the blocks of entries 1, 2, ...: each entry names the block of the next one.
  pub record IsTable (l : Location) (fs : Fs d) (blocks : List ℕ) : Type 0 where
    pub first : 0 < length blocks → (main_of l fs.drives).entry.next_index_start ≡ get_or blocks 0 0
    pub next :
        (i : ℕ)
        → suc i < length blocks
        → (entry_at l fs (get_or blocks i 0)).next_index_start ≡ get_or blocks (suc i) 0
    pub used : (i : ℕ) → i < length blocks → get_or blocks i 0 ≢ 0
    pub fits :
        (i : ℕ) → i < length blocks → block_to_lba l (get_or blocks i 0) fs.drives < d.capacity
    pub apart :
        (i j : ℕ)
        → i < length blocks
        → j < length blocks
        → i ≢ j
        → block_to_lba l (get_or blocks i 0) fs.drives
          ≢ block_to_lba l (get_or blocks j 0) fs.drives

  walk-reaches :
      (create : ℕ → Run (Fs d) (Unit {0})) (l : Location) (fs : Fs d) (blocks : List ℕ)
      (n j k last : ℕ) (e : Entry)
      → IsTable l fs blocks
      → e.next_index_start ≡ get_or blocks j 0
      → n + j < length blocks
      → walk create l (suc n) k last e fs ≡ some (get_or blocks (n + j) 0, fs)
  unfolding walk
  walk-reaches create l fs blocks zero j k last e table here inside =
      let nonzero : (e.next_index_start == 0) ≡ false =
        ==_of_ne (e.next_index_start) 0 (λ z. table.used j (omega arith) (sym here ∙ z)) in
      rw nonzero (ap (λ b. some (b, fs)) (here ∙ ap (λ m. get_or blocks m 0) (omega arith)))
  walk-reaches create l fs blocks (suc n) j k last e table here inside =
      let nonzero : (e.next_index_start == 0) ≡ false =
        ==_of_ne (e.next_index_start) 0 (λ z. table.used j (omega arith) (sym here ∙ z)) in
      let next = ap (λ b. (entry_at l fs b).next_index_start) here ∙ table.next j (omega arith) in
      rw nonzero (
        walk-reaches create l fs blocks n (suc j) (suc k) (e.next_index_start)
          (entry_at l fs (e.next_index_start)) table next (omega arith)
        ∙ ap (λ m. some (get_or blocks m 0, fs)) (omega arith))

  -- The block of an entry of the table is found without creating any.
  pub get_entry_block-table :
      (fuel : ℕ) (l : Location) (fs : Fs d) (blocks : List ℕ) (i : ℕ)
      → IsTable l fs blocks
      → i < length blocks
      → get_entry_block (suc fuel) l (suc i) fs ≡ some (get_or blocks i 0, fs)
  unfolding get_entry_block
  get_entry_block-table fuel l fs blocks i table inside =
      let positive : (suc i == 0) ≡ false = ground arith in
      let entry = (main_of l fs.drives).entry in
      rw positive (
        walk-reaches (λ i. create_entry_by (get_entry_block fuel l) l i 0) l fs blocks i 0 1
          (entry.next_index_start) entry table (table.first (omega arith)) (omega arith)
        ∙ ap (λ m. some (get_or blocks m 0, fs)) (omega arith))

  -- What reading and writing the sector of `block` leave.
  abbrev pub entry_read : Location → ℕ → Fs d → Fs d
  entry_read l block fs = record fs {
    entry_buffer = d.read fs.disk l.drive (block_to_lba l block fs.drives);
  }

  abbrev pub entry_written : Location → ℕ → Entry → Fs d → Fs d
  entry_written l block e fs = record fs {
    entry_buffer = encode_entry e blank;
    disk = d.write l.drive (block_to_lba l block fs.drives) (encode_entry e blank) fs.disk;
  }

  pub read_entry-table :
      (fuel : ℕ) (l : Location) (fs : Fs d) (blocks : List ℕ) (i : ℕ)
      → IsTable l fs blocks
      → i < length blocks
      → read_entry (suc fuel) l (suc i) fs
        ≡ some (entry_at l fs (get_or blocks i 0), entry_read l (get_or blocks i 0) fs)
  unfolding read_entry_by entry_at
  read_entry-table fuel l fs blocks i table inside =
      let positive : (suc i == 0) ≡ false = ground arith in
      rw (get_entry_block-table fuel l fs blocks i table inside, positive) refl

  pub write_entry-table :
      (fuel : ℕ) (l : Location) (fs : Fs d) (blocks : List ℕ) (i : ℕ) (e : Entry)
      → IsTable l fs blocks
      → i < length blocks
      → write_entry (suc fuel) l (suc i) e fs ≡ some (tt, entry_written l (get_or blocks i 0) e fs)
  unfolding write_entry_by
  write_entry-table fuel l fs blocks i e table inside =
      let positive : (suc i == 0) ≡ false = ground arith in
      rw (get_entry_block-table fuel l fs blocks i table inside, positive) refl

  pub entry_at-written_self :
      (l : Location) (fs : Fs d) (block : ℕ) (e : Entry)
      → IsEntry e
      → block_to_lba l block fs.drives < d.capacity
      → entry_at l (entry_written l block e fs) block ≡ e
  unfolding entry_at
  entry_at-written_self l fs block e ok fits =
      decode_entry-eq 0 _ (encode_entry e blank)
        (λ p hp.
          d.read-write_self fs.disk l.drive _ (encode_entry e blank) p fits
            (omega (arith, d.main_delivered)))
        (omega arith)
      ∙ decode-encode_entry e blank ok

  pub entry_at-written_ne :
      (l : Location) (fs : Fs d) (block other : ℕ) (e : Entry)
      → block_to_lba l block fs.drives < d.capacity
      → block_to_lba l other fs.drives < d.capacity
      → block_to_lba l block fs.drives ≢ block_to_lba l other fs.drives
      → entry_at l (entry_written l block e fs) other ≡ entry_at l fs other
  unfolding entry_at
  entry_at-written_ne l fs block other e hb ho ne =
      ap (decode_entry 0) (d.read-write_ne fs.disk l.drive _ _ (encode_entry e blank) hb ho ne)

  -- The entries after entry `k + 1` is written.
  pub entry_at-written :
      (l : Location) (fs : Fs d) (blocks : List ℕ) (k i : ℕ) (e : Entry)
      → IsTable l fs blocks
      → IsEntry e
      → k < length blocks
      → i < length blocks
      → entry_at l (entry_written l (get_or blocks k 0) e fs) (get_or blocks i 0)
        ≡ (if k == i then e else entry_at l fs (get_or blocks i 0))
  entry_at-written l fs blocks k i e table ok hk hi = elim (Bool-cases (k == i)) [
    | inl same ↦
        let this : k ≡ i = (==_iff k i).0 same in
        rw same (
          subst (λ j. entry_at l (entry_written l (get_or blocks k 0) e fs) (get_or blocks j 0) ≡ e)
            this (entry_at-written_self l fs (get_or blocks k 0) e ok (table.fits k hk)))
    | inr other ↦ rw other (
        entry_at-written_ne l fs (get_or blocks k 0) (get_or blocks i 0) e (table.fits k hk)
          (table.fits i hi) (table.apart k i hk hi (ground arith)))
  ]

  pub written-IsTable :
      (l : Location) (fs : Fs d) (blocks : List ℕ) (k : ℕ) (e : Entry)
      → IsTable l fs blocks
      → IsEntry e
      → k < length blocks
      → e.next_index_start ≡ (entry_at l fs (get_or blocks k 0)).next_index_start
      → IsTable l (entry_written l (get_or blocks k 0) e fs) blocks
  written-IsTable l fs blocks k e table ok hk keeps = record {
    first = table.first;
    next = λ i hi.
        ap (λ x. x.next_index_start) (entry_at-written l fs blocks k i e table ok hk (omega arith))
        ∙ elim (Bool-cases (k == i)) [
          | inl same ↦ rw same (
              keeps
              ∙ ap (λ j. (entry_at l fs (get_or blocks j 0)).next_index_start) ((==_iff k i).0 same)
              ∙ table.next i hi)
          | inr other ↦ rw other (table.next i hi)
        ];
    used = table.used;
    fits = table.fits;
    apart = table.apart;
  }

  -- The table does not depend on Entry_Buffer.
  abbrev pub with_buffer : Fs d → Sector → Fs d
  with_buffer fs buffer = record fs { entry_buffer = buffer }

  pub with_buffer-IsTable :
      (l : Location) (fs : Fs d) (buffer : Sector) (blocks : List ℕ)
      → IsTable l fs blocks
      → IsTable l (with_buffer fs buffer) blocks
  unfolding entry_at
  with_buffer-IsTable l fs buffer blocks table = record {
    first = table.first;
    next = table.next;
    used = table.used;
    fits = table.fits;
    apart = table.apart;
  }

  pub read-IsTable :
      (l : Location) (fs : Fs d) (block : ℕ) (blocks : List ℕ)
      → IsTable l fs blocks
      → IsTable l (entry_read l block fs) blocks
  read-IsTable l fs block blocks table =
      with_buffer-IsTable l fs (d.read fs.disk l.drive (block_to_lba l block fs.drives)) blocks
        table
