-- ===== src/Elf/Reads.antt =====
-- The reads of the floppy driver that one command makes, as the loader of src/kernel/drivers/Userland/Tasks.c
-- uses them.
use chud_os.Base.{
  ℕ, ◌+◌, ◌-◌, ◌*◌, ◌/◌, ◌%◌, ◌^◌, ◌≤◌, ◌<◌, ◌≡◌, refl, ap, ◌∙◌, arith, ltb, ◌⊎◌, if◌then◌else◌,
  false, lt→ltb, not-ltb,
}
use chud_os.Base.Words.{add64, sub64}
use chud_os.Elf.{read_lba, dma_bytes}

pub sector_byte :
    (sectors : ℕ → ℕ → ℕ) (l l' o o' : ℕ) → l ≡ l' → o ≡ o' → sectors l o ≡ sectors l' o'
sector_byte sectors l l' o o' e e' = ap (λ x. sectors x o) e ∙ ap (sectors l') e'

module _ (sectors : ℕ → ℕ → ℕ) where
  -- A read of 1 to 128 sectors gets all bytes but the last, which becomes 0.
  abbrev single_read : ℕ → ℕ → ℕ → (ℕ → ℕ) → ℕ → ℕ
  single_read first dest count bytes p =
      let i = sub64 p dest in
      if ltb i (count * 512)
      then (if ltb i (count * 512 - 1) then sectors (add64 first (i / 512)) (i % 512) else 0)
      else bytes p

  read_lba-single :
      (first dest count p : ℕ) (bytes : ℕ → ℕ)
      → 0 < count
      → count ≤ 128
      → read_lba sectors first dest count bytes p ≡ single_read first dest count bytes p
  read_lba-single first dest count p bytes some_sectors few =
      let c : count % 2 ^ 16 ≡ count = omega arith in
      let d : dma_bytes (count * 512) ≡ count * 512 - 1 = omega arith in
      let l : ltb 0x10000 (count * 512) ≡ false =
        not-ltb 0x10000 (count * 512) (λ h. absurd (omega arith)) in
      rw c (rw (l, d) refl)

  pub read_lba_in :
      (first dest count i : ℕ) (bytes : ℕ → ℕ)
      → i + 1 < count * 512
      → count ≤ 128
      → dest + i < 2 ^ 64
      → first + i / 512 < 2 ^ 64
      → read_lba sectors first dest count bytes (dest + i) ≡ sectors (first + i / 512) (i % 512)
  read_lba_in first dest count i bytes h few fits low =
      let e : sub64 (dest + i) dest ≡ i = omega arith in
      read_lba-single first dest count (dest + i) bytes (omega arith) few
      ∙ rw e (
          rw (lt→ltb i (count * 512) (omega arith), lt→ltb i (count * 512 - 1) (omega arith))
            (sector_byte sectors _ _ _ _ (omega arith) refl))

  pub read_lba_last :
      (first dest count i : ℕ) (bytes : ℕ → ℕ)
      → i + 1 ≡ count * 512
      → count ≤ 128
      → dest + i < 2 ^ 64
      → read_lba sectors first dest count bytes (dest + i) ≡ 0
  read_lba_last first dest count i bytes h few fits =
      let e : sub64 (dest + i) dest ≡ i = omega arith in
      read_lba-single first dest count (dest + i) bytes (omega arith) few
      ∙ rw e (
          rw
            (
              lt→ltb i (count * 512) (omega arith),
              not-ltb i (count * 512 - 1) (λ l. absurd (omega arith)),
            )
            refl)

  pub read_lba_out :
      (first dest count p : ℕ) (bytes : ℕ → ℕ)
      → 0 < count
      → count ≤ 128
      → p < 2 ^ 64
      → dest + count * 512 ≤ 2 ^ 64
      → (p < dest) ⊎ (dest + count * 512 ≤ p)
      → read_lba sectors first dest count bytes p ≡ bytes p
  read_lba_out first dest count p bytes some_sectors few small fits out =
      let e : ltb (sub64 p dest) (count * 512) ≡ false = ground (arith, out) in
      read_lba-single first dest count p bytes some_sectors few ∙ rw e refl
