-- ===== src/Floppy/Geometry.antt =====
-- FLOPPY_LBA_To_CHS.
use chud_os.Base.{
  ℕ, ◌+◌, ◌-◌, ◌*◌, ◌/◌, ◌%◌, ◌^◌, ◌≤◌, ◌<◌, ◌==◌, ◌≡◌, refl, sym, ap, ◌∙◌, arith, if◌then◌else◌,
  ◌||◌, false, Option, none, some,
}
use native.Mathlib.Nat.{
  div-div-eq-div-mul, div-add-mod', mod-lt, mul-pos, mul_comm, div-lt_iff_lt-mul,
}

-- `struct CHS_S`, of 16-bit fields.
pub record Chs : Type 0 where
  pub cylinder : ℕ
  pub head : ℕ
  pub sector : ℕ

-- By the heads of a cylinder and the sectors of a track; a division by 0 fails.
unfoldable pub lba_to_chs : ℕ → ℕ → ℕ → Option Chs
lba_to_chs head_count sector_max lba =
    if (head_count == 0) || (sector_max == 0)
    then none
    else some (record {
      cylinder = lba / (head_count * sector_max) % 2 ^ 16;
      head = lba / sector_max % head_count;
      sector = lba % sector_max + 1;
    })

-- The number of a sector, by the geometry.
abbrev pub chs_to_lba : ℕ → ℕ → Chs → ℕ
chs_to_lba head_count sector_max x = (x.cylinder * head_count + x.head) * sector_max + x.sector - 1

lba_to_chs-some :
    (head_count sector_max lba : ℕ)
    → 0 < head_count
    → 0 < sector_max
    → lba_to_chs head_count sector_max lba
      ≡ some (record {
        cylinder = lba / (head_count * sector_max) % 2 ^ 16;
        head = lba / sector_max % head_count;
        sector = lba % sector_max + 1;
      })
unfolding lba_to_chs
lba_to_chs-some head_count sector_max lba hh hs =
    let a : (head_count == 0) ≡ false = ground arith in
    let b : (sector_max == 0) ≡ false = ground arith in rw (a, b) refl

-- A sector's cylinder, head and sector name it: where the drive has heads and sectors and at most 256
-- cylinders reach the sector, the conversion succeeds, the three numbers are in the ranges of the geometry, the
-- cylinder fits the byte that FLOPPY_Read_CHS takes, and the sector's number is got back from them.
pub chs_to_lba-lba_to_chs :
    (head_count sector_max lba : ℕ)
    → 0 < head_count
    → 0 < sector_max
    → lba < 0x100 * (head_count * sector_max)
    → (x : Chs) × (lba_to_chs head_count sector_max lba ≡ some x)
      × (x.cylinder < 0x100)
      × (x.head < head_count)
      × (1 ≤ x.sector)
      × (x.sector ≤ sector_max)
      × (chs_to_lba head_count sector_max x ≡ lba)
chs_to_lba-lba_to_chs head_count sector_max lba hh hs low =
    let area = mul-pos hh hs in
    let cylinder : lba / (head_count * sector_max) < 0x100 = (div-lt_iff_lt-mul area).1 low in
    let fits : lba / (head_count * sector_max) % 2 ^ 16 ≡ lba / sector_max / head_count =
      omega (arith, cylinder)
      ∙ ap (λ n. lba / n) (mul_comm head_count sector_max)
      ∙ sym (div-div-eq-div-mul lba sector_max head_count) in
    let track = div-add-mod' (lba / sector_max) head_count in
    let whole = div-add-mod' lba sector_max in
    let below = mod-lt lba hs in
    (
      _,
      lba_to_chs-some head_count sector_max lba hh hs,
      omega (arith, cylinder),
      mod-lt (lba / sector_max) hh,
      omega arith,
      omega (arith, below),
      rw (fits, track) (omega (arith, whole)),
    )
