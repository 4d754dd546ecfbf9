-- ===== src/Elf/Segments.antt =====
-- What the loader of src/kernel/drivers/Userland/Tasks.c maps and reads for a segment.
use chud_os.Base.{
  ℕ, ◌+◌, ◌-◌, ◌*◌, ◌/◌, ◌%◌, ◌^◌, ◌≤◌, ◌<◌, ◌≡◌, refl, sym, ap, ◌∙◌, arith, ltb, ◌⊎◌, inl, inr,
  if◌then◌else◌, false, lt→ltb, not-ltb,
}
use mathlib.Core.Path.{subst}
use native.Mathlib.Decide.{ℕ_discrete, dec_lt}
use chud_os.Base.Bits.{bit_and-field}
use chud_os.Base.Words.{add64, sub64}
use chud_os.Elf.Reads.{sector_byte, read_lba_in, read_lba_last, read_lba_out}
use chud_os.Elf.{ProgramHeader64, page_start, num_pages, read_segment, read_lba, read_head}

page_start_lem : (a : ℕ) → a < 2 ^ 64 → page_start a ≡ a / 0x1000 * 0x1000
page_start_lem a h = bit_and-field 12 52 a ∙ omega arith

-- The pages that the loader maps for a segment, from the one that its address lies in on, cover the segment
-- in memory, and end before a further page does, where the segment ends below the last page of the
-- address space.
pub num_pages-covers :
    (h : ProgramHeader64)
    → h.p_vaddr + h.p_memsz + 0x1000 ≤ 2 ^ 64
    → (page_start h.p_vaddr ≤ h.p_vaddr)
      × (h.p_vaddr + h.p_memsz ≤ page_start h.p_vaddr + num_pages h * 0x1000)
      × (page_start h.p_vaddr + num_pages h * 0x1000 < h.p_vaddr + h.p_memsz + 0x1000)
unfolding num_pages
num_pages-covers h fits =
    let inner : add64 h.p_vaddr h.p_memsz ≡ h.p_vaddr + h.p_memsz = omega arith in
    let outer : add64 (h.p_vaddr + h.p_memsz) 0xFFF ≡ h.p_vaddr + h.p_memsz + 0xFFF = omega arith in
    rw
      (
        inner,
        outer,
        page_start_lem h.p_vaddr (omega arith),
        page_start_lem (h.p_vaddr + h.p_memsz + 0xFFF) (omega arith),
      )
      (omega arith, omega arith, omega arith)

module _ (sectors : ℕ → ℕ → ℕ) (lba : ℕ) where
  -- The file's byte at an offset.
  abbrev pub file_byte : ℕ → ℕ
  file_byte j = sectors (lba + j / 512) (j % 512)

  -- Where the loader reads a segment so that the whole of it arrives: a first sector that is not read from
  -- its start must not hold more than the segment.
  abbrev pub HeadFits : ProgramHeader64 → Type 0
  HeadFits h = (h.p_offset % 512 ≡ 0) ⊎ (512 ≤ h.p_offset % 512 + h.p_filesz)

  abbrev aligned : ProgramHeader64 → (ℕ → ℕ) → ℕ → ℕ
  aligned h bytes =
      if ltb 0 h.p_filesz
      then read_lba sectors (lba + h.p_offset / 512) h.p_vaddr ((h.p_filesz + 511) / 512) bytes
      else bytes

  abbrev split_remaining : ProgramHeader64 → ℕ
  split_remaining h = h.p_filesz + h.p_offset % 512 - 512

  abbrev split : ProgramHeader64 → (ℕ → ℕ) → ℕ → ℕ
  split h bytes =
      let head = h.p_offset % 512 in
      let with_head : ℕ → ℕ = read_head sectors (lba + h.p_offset / 512) h.p_vaddr head bytes in
      if ltb 0 (split_remaining h)
      then read_lba sectors (lba + h.p_offset / 512 + 1) (h.p_vaddr + (512 - head))
          ((split_remaining h + 511) / 512) with_head
      else with_head

  -- Nothing wraps around, and one command reads the segment.
  pub record Fits (h : ProgramHeader64) : Type 0 where
    pub memory : h.p_vaddr + h.p_filesz + 1024 ≤ 2 ^ 64
    pub disk : lba + (h.p_offset + h.p_filesz) / 512 + 2 ≤ 2 ^ 64
    pub one_command : h.p_filesz ≤ 0x10000

  read_segment-aligned :
      (h : ProgramHeader64) (bytes : ℕ → ℕ)
      → Fits h
      → h.p_offset % 512 ≡ 0
      → read_segment sectors lba h bytes ≡ aligned h bytes
  unfolding read_segment
  read_segment-aligned h bytes fits whole =
      let l : add64 lba (h.p_offset / 512) ≡ lba + h.p_offset / 512 = omega (arith, fits.disk) in
      let r : sub64 h.p_filesz 0 ≡ h.p_filesz = omega (arith, fits.memory) in
      let v : add64 h.p_vaddr 0 ≡ h.p_vaddr = omega (arith, fits.memory) in
      let s : add64 h.p_filesz 511 ≡ h.p_filesz + 511 = omega (arith, fits.memory) in
      rw (whole, l) (rw (r, v, s) refl)

  read_segment-split :
      (h : ProgramHeader64) (bytes : ℕ → ℕ)
      → Fits h
      → 0 < h.p_offset % 512
      → 512 ≤ h.p_offset % 512 + h.p_filesz
      → read_segment sectors lba h bytes ≡ split h bytes
  unfolding read_segment
  read_segment-split h bytes fits part enough =
      let head = h.p_offset % 512 in
      let l : add64 lba (h.p_offset / 512) ≡ lba + h.p_offset / 512 = omega (arith, fits.disk) in
      let n : add64 (lba + h.p_offset / 512) 1 ≡ lba + h.p_offset / 512 + 1 =
        omega (arith, fits.disk) in
      let r : sub64 h.p_filesz (512 - head) ≡ split_remaining h = omega (arith, fits.memory) in
      let v : add64 h.p_vaddr (512 - head) ≡ h.p_vaddr + (512 - head) =
        omega (arith, fits.memory) in
      let s : add64 (split_remaining h) 511 ≡ split_remaining h + 511 =
        omega (arith, fits.memory) in
      rw (lt→ltb 0 head part) (rw (l) (rw (n, r, v) (rw s refl)))

  -- The last byte of a transfer: of the first sector where only its end is read, or of the last sector.
  abbrev pub IsLost : ProgramHeader64 → ℕ → Type 0
  IsLost h i =
      ((0 < h.p_offset % 512) × (h.p_offset % 512 + i ≡ 511))
      ⊎ ((i + 1 ≡ h.p_filesz) × ((h.p_offset + h.p_filesz) % 512 ≡ 0))

  -- What the loader makes of the byte at an offset of the segment.
  abbrev pub Arrives : ProgramHeader64 → ℕ → ℕ → Type 0
  Arrives h i byte = (IsLost h i → byte ≡ 0) × (¬ IsLost h i → byte ≡ file_byte (h.p_offset + i))

  aligned_in :
      (h : ProgramHeader64) (bytes : ℕ → ℕ) (i : ℕ)
      → Fits h
      → h.p_offset % 512 ≡ 0
      → i < h.p_filesz
      → Arrives h i (aligned h bytes (h.p_vaddr + i))
  aligned_in h bytes i fits whole inside =
      let first = lba + h.p_offset / 512 in
      let count = (h.p_filesz + 511) / 512 in
      rw (lt→ltb 0 h.p_filesz (omega arith)) (
        (λ lost.
            read_lba_last sectors first h.p_vaddr count i bytes (ground (arith, lost))
              (omega (arith, fits.one_command)) (omega (arith, fits.memory))),
        (λ kept.
            read_lba_in sectors first h.p_vaddr count i bytes
              (omega (arith, λ (e : i + 1 ≡ count * 512). kept (inr (omega arith, omega arith))))
              (omega (arith, fits.one_command)) (omega (arith, fits.memory))
              (omega (arith, fits.disk))
            ∙ sector_byte sectors _ _ _ _ (omega arith) (omega arith)),
      )

  -- The first sector, where only its end is read.
  head_in :
      (h : ProgramHeader64) (bytes : ℕ → ℕ) (i : ℕ)
      → Fits h
      → 0 < h.p_offset % 512
      → i < h.p_filesz
      → i < 512 - h.p_offset % 512
      → Arrives h i (
          read_head sectors
            (lba + h.p_offset / 512)
            h.p_vaddr
            (h.p_offset % 512)
            bytes
            (h.p_vaddr + i))
  head_in h bytes i fits part inside low =
      let head = h.p_offset % 512 in
      let first = lba + h.p_offset / 512 in
      let e : sub64 (h.p_vaddr + i) h.p_vaddr ≡ i = omega (arith, fits.memory) in
      let plain : head + i ≡ 0 + (head + i) = omega arith in
      rw e (
        rw (lt→ltb i (512 - head) low) (
          (λ lost.
              let last : head + i + 1 ≡ 512 = ground (arith, lost) in
              ap (read_lba sectors first 0 1 (λ q. 0)) plain
              ∙ read_lba_last sectors first 0 1 (head + i) (λ q. 0) (omega arith) (omega arith)
                  (omega arith)),
          (λ kept.
              let more : head + i + 1 < 512 =
                omega (arith, λ (z : head + i ≡ 511). kept (inl (part, z))) in
              ap (read_lba sectors first 0 1 (λ q. 0)) plain
              ∙ read_lba_in sectors first 0 1 (head + i) (λ q. 0) (omega arith) (omega arith)
                  (omega arith) (omega (arith, fits.disk))
              ∙ sector_byte sectors _ _ _ _ (omega arith) (omega arith)),
        ))

  tail_in :
      (h : ProgramHeader64) (bytes : ℕ → ℕ) (i : ℕ)
      → Fits h
      → 512 ≤ h.p_offset % 512 + h.p_filesz
      → i < h.p_filesz
      → 512 - h.p_offset % 512 ≤ i
      → Arrives h i (
          read_lba sectors
            (lba + h.p_offset / 512 + 1)
            (h.p_vaddr + (512 - h.p_offset % 512))
            ((split_remaining h + 511) / 512)
            bytes
            (h.p_vaddr + i))
  tail_in h bytes i fits enough inside high =
      let head = h.p_offset % 512 in
      let first = lba + h.p_offset / 512 + 1 in
      let dest = h.p_vaddr + (512 - head) in
      let count = (split_remaining h + 511) / 512 in
      let few : count ≤ 128 = omega (arith, fits.one_command) in
      let j = i - (512 - head) in
      let same : h.p_vaddr + i ≡ dest + j = omega arith in
      (
        (λ lost.
            ap (read_lba sectors first dest count bytes) same
            ∙ read_lba_last sectors first dest count j bytes (ground (arith, lost)) few
                (omega (arith, fits.memory))),
        (λ kept.
            let more : j + 1 < count * 512 =
              omega (arith, λ (z : j + 1 ≡ count * 512). kept (inr (omega arith, omega arith))) in
            ap (read_lba sectors first dest count bytes) same
            ∙ read_lba_in sectors first dest count j bytes more few (omega (arith, fits.memory))
                (omega (arith, fits.disk))
            ∙ sector_byte sectors _ _ _ _ (omega arith) (omega arith)),
      )

  split_in :
      (h : ProgramHeader64) (bytes : ℕ → ℕ) (i : ℕ)
      → Fits h
      → 0 < h.p_offset % 512
      → 512 ≤ h.p_offset % 512 + h.p_filesz
      → i < h.p_filesz
      → Arrives h i (split h bytes (h.p_vaddr + i))
  split_in h bytes i fits part enough inside =
      let head = h.p_offset % 512 in
      let first = lba + h.p_offset / 512 in
      let with_head : ℕ → ℕ = read_head sectors first h.p_vaddr head bytes in
      let count = (split_remaining h + 511) / 512 in
      elim (dec_lt i (512 - head)) [
        | yes low ↦
            let at_head = head_in h bytes i fits part inside low in
            elim (dec_lt 0 (split_remaining h)) [
              | yes more ↦
                  let untouched =
                    read_lba_out sectors (first + 1) (h.p_vaddr + (512 - head)) count
                      (h.p_vaddr + i) with_head (omega arith) (omega (arith, fits.one_command))
                      (omega (arith, fits.memory)) (omega (arith, fits.memory))
                      (inl (omega arith)) in
                  rw (lt→ltb 0 (split_remaining h) more)
                    (subst (Arrives h i) (sym untouched) at_head)
              | no done ↦ rw (not-ltb 0 (split_remaining h) done) at_head
            ]
        | no high ↦
            rw (lt→ltb 0 (split_remaining h) (omega arith))
              (tail_in h with_head i fits enough inside (omega arith))
      ]

  read_segment_in :
      (h : ProgramHeader64) (bytes : ℕ → ℕ) (i : ℕ)
      → Fits h
      → HeadFits h
      → i < h.p_filesz
      → Arrives h i (read_segment sectors lba h bytes (h.p_vaddr + i))
  read_segment_in h bytes i fits enough inside = elim (ℕ_discrete (h.p_offset % 512) 0) [
    | yes whole ↦
        subst (λ (f : ℕ → ℕ). Arrives h i (f (h.p_vaddr + i)))
          (sym (read_segment-aligned h bytes fits whole)) (aligned_in h bytes i fits whole inside)
    | no part ↦
        let some_part : 0 < h.p_offset % 512 = omega arith in
        let held : 512 ≤ h.p_offset % 512 + h.p_filesz = ground (arith, enough) in
        subst (λ (f : ℕ → ℕ). Arrives h i (f (h.p_vaddr + i)))
          (sym (read_segment-split h bytes fits some_part held))
          (split_in h bytes i fits some_part held inside)
  ]

  -- Out of the bytes from `low` on, below `high`.
  abbrev Outside : ℕ → ℕ → ℕ → Type 0
  Outside low high p = (p < low) ⊎ (high ≤ p)

  read_head_out :
      (first dest head p : ℕ) (bytes : ℕ → ℕ)
      → p < 2 ^ 64
      → dest + 512 ≤ 2 ^ 64
      → Outside dest (dest + (512 - head)) p
      → read_head sectors first dest head bytes p ≡ bytes p
  read_head_out first dest head p bytes small fits out =
      let e : ltb (sub64 p dest) (512 - head) ≡ false = ground (arith, out) in rw e refl

  aligned_out :
      (h : ProgramHeader64) (bytes : ℕ → ℕ) (p : ℕ)
      → Fits h
      → p < 2 ^ 64
      → Outside h.p_vaddr (h.p_vaddr + (h.p_filesz + 511) / 512 * 512) p
      → aligned h bytes p ≡ bytes p
  aligned_out h bytes p fits small out = elim (dec_lt 0 h.p_filesz) [
    | yes some_bytes ↦ rw (lt→ltb 0 h.p_filesz some_bytes) (
        read_lba_out sectors (lba + h.p_offset / 512) h.p_vaddr ((h.p_filesz + 511) / 512) p bytes
          (omega arith) (omega (arith, fits.one_command)) small (omega (arith, fits.memory)) out)
    | no empty ↦ rw (not-ltb 0 h.p_filesz empty) refl
  ]

  split_out :
      (h : ProgramHeader64) (bytes : ℕ → ℕ) (p : ℕ)
      → Fits h
      → p < 2 ^ 64
      → 512 ≤ h.p_offset % 512 + h.p_filesz
      → Outside h.p_vaddr
          (h.p_vaddr + (512 - h.p_offset % 512) + (split_remaining h + 511) / 512 * 512)
          p
      → split h bytes p ≡ bytes p
  split_out h bytes p fits small enough out =
      let head = h.p_offset % 512 in
      let first = lba + h.p_offset / 512 in
      let with_head : ℕ → ℕ = read_head sectors first h.p_vaddr head bytes in
      let count = (split_remaining h + 511) / 512 in
      let at_head =
        read_head_out first h.p_vaddr head p bytes small (omega (arith, fits.memory))
          (ground (arith, out)) in
      elim (dec_lt 0 (split_remaining h)) [
        | yes more ↦ rw (lt→ltb 0 (split_remaining h) more) (
            read_lba_out sectors (first + 1) (h.p_vaddr + (512 - head)) count p with_head
              (omega arith) (omega (arith, fits.one_command)) small (omega (arith, fits.memory))
              (ground (arith, out))
            ∙ at_head)
        | no done ↦ rw (not-ltb 0 (split_remaining h) done) at_head
      ]

  read_segment_out :
      (h : ProgramHeader64) (bytes : ℕ → ℕ) (p low high : ℕ)
      → Fits h
      → HeadFits h
      → p < 2 ^ 64
      → low ≤ h.p_vaddr
      → h.p_vaddr + h.p_filesz ≤ high
      → high % 0x1000 ≡ 0
      → h.p_vaddr % 0x1000 ≡ h.p_offset % 0x1000
      → Outside low high p
      → read_segment sectors lba h bytes p ≡ bytes p
  read_segment_out h bytes p low high fits enough small from upto page same out =
      elim (ℕ_discrete (h.p_offset % 512) 0) [
        | yes whole ↦
            ap (λ f. f p) (read_segment-aligned h bytes fits whole)
            ∙ aligned_out h bytes p fits small (ground (arith, out))
        | no part ↦
            let some_part : 0 < h.p_offset % 512 = omega arith in
            let held : 512 ≤ h.p_offset % 512 + h.p_filesz = ground (arith, enough) in
            ap (λ f. f p) (read_segment-split h bytes fits some_part held)
            ∙ split_out h bytes p fits small held (ground (arith, out))
      ]

-- What arrives of a segment: where its sectors and its bytes in memory, with two sectors to spare, do not wrap
-- around, it has at most 64 KiB in the file, a first sector that it does not start at the beginning of holds no
-- more than the segment, and the disk controller reports no error, the byte at each offset of the segment's part
-- in the file stands at that offset of its place in memory afterwards, but for the last byte of each transfer,
-- which becomes 0: that of the first sector, where the segment starts inside of it, and that of the
-- segment, where it ends with a sector.
pub read_segment-file :
    (sectors : ℕ → ℕ → ℕ) (lba : ℕ) (h : ProgramHeader64) (bytes : ℕ → ℕ) (i : ℕ)
    → Fits sectors lba h
    → HeadFits sectors lba h
    → i < h.p_filesz
    → Arrives sectors lba h i (read_segment sectors lba h bytes (h.p_vaddr + i))
read_segment-file sectors lba h bytes i fits enough inside =
    read_segment_in sectors lba h bytes i fits enough inside

-- Reading a segment changes no byte of the 64-bit address space outside the pages that are mapped for it,
-- although whole sectors are read: where the disk controller reports no error, its sectors and its bytes in
-- memory, with two sectors to spare, do not wrap around, it has at most 64 KiB in the file, a first sector that it does not start at the beginning of holds no more than the segment, the
-- segment has at least its file size in memory, its address is congruent to its file offset modulo
-- the page size, and it ends below the last page.
pub read_segment-inside :
    (sectors : ℕ → ℕ → ℕ) (lba : ℕ) (h : ProgramHeader64) (bytes : ℕ → ℕ) (p : ℕ)
    → Fits sectors lba h
    → HeadFits sectors lba h
    → h.p_filesz ≤ h.p_memsz
    → h.p_vaddr % 0x1000 ≡ h.p_offset % 0x1000
    → h.p_vaddr + h.p_memsz + 0x1000 ≤ 2 ^ 64
    → p < 2 ^ 64
    → (p < page_start h.p_vaddr) ⊎ (page_start h.p_vaddr + num_pages h * 0x1000 ≤ p)
    → read_segment sectors lba h bytes p ≡ bytes p
read_segment-inside sectors lba h bytes p fits enough sizes same below small out =
    let (from, upto, _) = num_pages-covers h below in
    let start = page_start_lem h.p_vaddr (omega arith) in
    read_segment_out sectors lba h bytes p (page_start h.p_vaddr)
      (page_start h.p_vaddr + num_pages h * 0x1000) fits enough small from (omega (arith, upto))
      (omega (arith, start)) same out
