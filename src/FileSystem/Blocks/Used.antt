-- ===== src/FileSystem/Blocks/Used.antt =====
-- The table of used blocks, for blocks of one sector.
use chud_os.Base.{
  ℕ, zero, suc, ◌+◌, ◌*◌, ◌/◌, ◌%◌, ◌^◌, ◌≤◌, ◌<◌, ◌==◌, ==_iff, ◌≡◌, refl, sym, ap, ◌∙◌, arith,
  ◌⊎◌, inl, inr, ltb, if◌then◌else◌, update, Bool, true, false, some, bit_or, Bool-cases,
}
use chud_os.Base.Words.{add64}
use chud_os.Base.Bits.{bit_or-pow}
use chud_os.FileSystem.{Disk, Fs, Location}
use chud_os.FileSystem.Blocks.{
  partition_of, block_size_of, block_to_lba, write_sectors, read_sectors, fbb_get_block,
  fbb_set_block, search_free, find_free_block,
}

module _ {d : Disk} where
  -- The bit of `block` on the disk, and what reading the table leaves behind.
  unfoldable pub used : Location → Fs d → ℕ → Bool
  used l fs block =
      d.read fs.disk l.drive (block_to_lba l 4 fs.drives) block / 2 ^ (block % 8) % 2 == 1

  abbrev pub table_read : Location → Fs d → Fs d
  table_read l fs = record fs {
    fbb_block = read_sectors l (block_to_lba l 4 fs.drives) 1 fs.fbb_block fs;
  }

  fbb_get-used :
      (l : Location) (fs : Fs d) (block : ℕ)
      → block_size_of l fs.drives ≡ 1
      → block < 512
      → fbb_get_block l block fs ≡ some (used l fs block, table_read l fs)
  unfolding fbb_get_block used
  fbb_get-used l fs block one low =
      let table : add64 (block / (1 * 512)) 4 ≡ 4 = omega arith in
      let self : block / 1 ≡ block = omega arith in
      let lower : ltb block (512 * 1) ≡ true = ground arith in
      let here : block_to_lba l 4 fs.drives + block / 512 ≡ block_to_lba l 4 fs.drives =
        omega arith in
      let offset : block % 512 ≡ block = omega arith in
      rw (one, table, self, lower, here, offset) refl

  -- What marking `block` leaves: one byte of the table is changed, and the sector goes back.
  abbrev pub marked : Location → ℕ → Fs d → Fs d
  marked l block fs =
      let table = read_sectors l (block_to_lba l 4 fs.drives) 1 fs.fbb_block fs in
      let changed = update table block (bit_or (table block) (2 ^ (block % 8))) in
      record fs {
        fbb_block = changed;
        disk = d.write l.drive (block_to_lba l 4 fs.drives) changed fs.disk;
      }

  pub fbb_set-marked :
      (l : Location) (fs : Fs d) (block : ℕ)
      → block_size_of l fs.drives ≡ 1
      → block < 512
      → fbb_set_block l block fs ≡ some (tt, marked l block fs)
  unfolding fbb_set_block write_sectors
  fbb_set-marked l fs block one low =
      let table : add64 (block / (1 * 512)) 4 ≡ 4 = omega arith in
      let self : block / 1 ≡ block = omega arith in rw (one, table, self) refl

  pub used-marked :
      (l : Location) (fs : Fs d) (block c : ℕ)
      → block_to_lba l 4 fs.drives < d.capacity
      → block < 512
      → c < 512
      → c < d.delivered
      → used l (marked l block fs) c ≡ (if block == c then true else used l fs c)
  unfolding used
  used-marked l fs block c fits low hc whole =
      let lower : ltb c (512 * 1) ≡ true = ground arith in
      let sector : block_to_lba l 4 fs.drives + c / 512 ≡ block_to_lba l 4 fs.drives =
        omega arith in
      let offset : c % 512 ≡ c = omega arith in
      rw
        (d.read-write_self fs.disk l.drive (block_to_lba l 4 fs.drives)
          (marked l block fs).fbb_block c fits whole)
        (elim (Bool-cases (block == c)) [
          | inl e ↦ let here : block ≡ c = (==_iff block c).0 e in rw (e, here, bit_or-pow) refl
          | inr e ↦ rw (e, lower, sector, offset) refl
        ])

  -- On a partition with blocks of one sector, whose table of used blocks is on the disk,
  -- GemFS_FBB_SetBlock of a block below 512 makes that block used and leaves the other blocks below
  -- 512 as they were, as far as a read delivers their bytes of the table.
  pub fbb_set_block-used :
      (l : Location) (fs : Fs d) (block : ℕ)
      → block_size_of l fs.drives ≡ 1
      → block_to_lba l 4 fs.drives < d.capacity
      → block < 512
      → (after : Fs d) × (fbb_set_block l block fs ≡ some (tt, after))
        × ((c : ℕ)
            → c < 512
            → c < d.delivered
            → used l after c ≡ (if block == c then true else used l fs c))
  fbb_set_block-used l fs block one fits low = (
    marked l block fs,
    fbb_set-marked l fs block one low,
    λ c hc whole. used-marked l fs block c fits low hc whole,
  )

  -- What a search for a free block from `i` on finds.
  abbrev pub IsLowestFree : Location → Fs d → ℕ → ℕ → ℕ → Type 0
  IsLowestFree l fs i end b =
      (i ≤ b) × (b < end) × (used l fs b ≡ false) × ((c : ℕ) → i ≤ c → c < b → used l fs c ≡ true)

  abbrev pub IsFull : Location → Fs d → ℕ → ℕ → Type 0
  IsFull l fs i end = (c : ℕ) → i ≤ c → c < end → used l fs c ≡ true

  from_next :
      (l : Location) (fs : Fs d) (i end : ℕ)
      → used l fs i ≡ true
      → ((c : ℕ) → suc i ≤ c → c < end → used l fs c ≡ true)
      → (c : ℕ) → i ≤ c
      → c < end
      → used l fs c ≡ true
  from_next l fs i end here later c lo hi = elim (Bool-cases (i == c)) [
    | inl e ↦ ap (used l fs) (sym ((==_iff i c).0 e)) ∙ here
    | inr ne ↦ later c (ground arith) hi
  ]

  search_free-lowest :
      (l : Location) (fs : Fs d) (n i : ℕ)
      → block_size_of l fs.drives ≡ 1
      → n + i ≡ 512
      → (b : ℕ) × (after : Fs d) × (search_free l n i fs ≡ some (b, after))
        × (after.disk ≡ fs.disk)
        × (IsLowestFree l fs i 512 b
            ⊎ (IsFull l fs i 512 × (b ≡ add64 ((partition_of l fs.drives).sector_count) 1)))
  unfolding search_free used
  search_free-lowest l fs zero i one end =
      let value : add64 ((partition_of l fs.drives).sector_count / block_size_of l fs.drives) 1
          ≡ add64 ((partition_of l fs.drives).sector_count) 1 =
        rw one (omega arith) in
      (_, fs, ap (λ b. some (b, fs)) value, refl, inr ((λ c lo hi. absurd (omega arith)), refl))
  search_free-lowest l fs (suc n) i one end =
      let step = fbb_get-used l fs i one (omega arith) in
      elim (Bool-cases (used l fs i)) [
        | inr free ↦ (
          i,
          table_read l fs,
          rw (step, free) refl,
          refl,
          inl (omega arith, omega arith, free, λ c lo hi. absurd (omega arith)),
        )
        | inl taken ↦
            let (b, after, run, disk, found) =
              search_free-lowest l (table_read l fs) n (suc i) one (omega arith) in
            (
              b,
              after,
              rw (step, taken) run,
              disk,
              elim found [
                | inl low ↦ inl (
                  omega (arith, low.0),
                  low.1,
                  low.2,
                  λ c lo hi. from_next l fs i b taken low.3 c lo hi,
                )
                | inr full ↦ inr ((λ c lo hi. from_next l fs i 512 taken full.0 c lo hi), full.1)
              ],
            )
      ]

  -- On a partition with blocks of one sector, GemFS_FindFreeBlock leaves the disk as it is and
  -- returns the lowest free block of the first 512, or, where there is none, one more than the
  -- number of sectors, in 64 bits.
  pub find_free_block-lowest :
      (l : Location) (fs : Fs d)
      → block_size_of l fs.drives ≡ 1
      → (b : ℕ) × (after : Fs d) × (find_free_block l fs ≡ some (b, after))
        × (after.disk ≡ fs.disk)
        × (IsLowestFree l fs 0 512 b
            ⊎ (IsFull l fs 0 512 × (b ≡ add64 ((partition_of l fs.drives).sector_count) 1)))
  unfolding find_free_block
  find_free_block-lowest l fs one = rw one (search_free-lowest l fs 0x200 0 one refl)
