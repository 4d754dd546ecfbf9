-- ===== src/Floppy/Transfer.antt =====
-- FLOPPY_Read_CHS, FLOPPY_Write_CHS and the functions by sector number.
pub mod Errors
use chud_os.Base.{
  ℕ, zero, suc, ◌+◌, ◌-◌, ◌*◌, ◌/◌, ◌%◌, ◌^◌, ◌==◌, ltb, if◌then◌else◌, ◌||◌, not, bit_or, Bool,
  true, false, none, some, List, [], ◌∷◌,
}
use chud_os.Base.Words.{sub64}
use chud_os.Base.Run.{Run, ◌>>=◌, ◌>>◌, pure, gets, modify, fail}
use chud_os.Dma.{transfer_to, transfer_from}
use chud_os.Floppy.{Controller, Driver, bit, set_drive, program_dma, command_and_wait}
use chud_os.Floppy.Geometry.{Chs, lba_to_chs}

-- `Results[1] & 0x80`, `& 0x40`, `& 2`.
abbrev pub is_error : ℕ → Bool
is_error st1 = bit 7 st1 || bit 6 st1 || bit 1 st1

-- The first `count` bytes of `to` are copied from `from`.
abbrev pub copy_bytes : ℕ → (ℕ → ℕ) → (ℕ → ℕ) → ℕ → ℕ
copy_bytes count from to p = if ltb p count then from p else to p

abbrev pub parameters : ℕ → ℕ → ℕ → ℕ → ℕ → List ℕ
parameters drive cylinder head sector sector_max =
    bit_or (head * 4) drive % 0x100 ∷ cylinder ∷ head ∷ sector ∷ 2 ∷ sector_max ∷ 0x1b ∷ 0xff ∷ []

abbrev pub cmd_read : ℕ
cmd_read = 0xE6

abbrev pub cmd_write : ℕ
cmd_write = 0xC5

module _ {c : Controller} where
  abbrev pub clear_bounce : Run (Driver c) (Unit {0})
  clear_bounce = modify (λ s. record s { bounce = λ p. 0 })

  -- One command of a read: `length` is what the DMA function gets, `count` what is copied out. The result is
  -- that of the C function so far: 0, or the status with an error.
  unfoldable pub read_part : ℕ → List ℕ → ℕ → ℕ → ℕ → Run (Driver c) ℕ
  read_part fuel params address length count = do
    program_dma ((transfer_to 2 address (length % 2 ^ 32) true 1).1)
    command_and_wait fuel cmd_read params
    st1 ← gets (λ s. s.results 1)
    if is_error st1
        then pure st1
        else (do modify (λ s. record s { memory = copy_bytes count s.bounce s.memory }); pure 0)

  -- The loop over whole 64 KiB. Each round has the same parameters, length and destination.
  unfoldable pub read_parts : ℕ → List ℕ → ℕ → ℕ → ℕ → Run (Driver c) ℕ
  read_parts fuel params address length zero = pure 0
  read_parts fuel params address length (suc rounds) = do
    code ← read_part fuel params address length 0x10000
    if code == 0 then read_parts fuel params address length rounds else pure code

  -- More than 64 KiB: lines 295-351.
  abbrev pub read_large : ℕ → List ℕ → ℕ → ℕ → ℕ → Run (Driver c) ℕ
  read_large fuel params physical low transfer_count =
      let rest = transfer_count % 0x10000 in
      do
        code ← read_parts fuel params physical (sub64 rest 1) (transfer_count / 0x10000)
        if not (code == 0)
            then pure code
            else if ltb 1 rest
            then read_part fuel params low (sub64 rest 1) rest
            else pure 0

  unfoldable pub read_chs : ℕ → ℕ → ℕ → ℕ → ℕ → ℕ → Run (Driver c) ℕ
  read_chs fuel drive cylinder head sector sector_count = do
    clear_bounce
    set_drive drive
    sector_max ← gets (λ s. s.sector_max)
    physical ← gets (λ s. s.bounce_physical)
    low ← gets (λ s. s.bounce_low)
    let params = parameters drive cylinder head sector sector_max in
        let transfer_count = sector_count * 512 in
        if ltb 0x10000 transfer_count
        then read_large fuel params physical low transfer_count
        else read_part fuel params low (sub64 transfer_count 1) transfer_count

  -- The same for writing: the bounce buffer is filled first.
  unfoldable pub write_part : ℕ → List ℕ → ℕ → ℕ → ℕ → Bool → Run (Driver c) ℕ
  write_part fuel params address length count auto = do
    modify (λ s. record s { bounce = copy_bytes count s.memory s.bounce })
    program_dma ((transfer_from 2 address (length % 2 ^ 32) auto 1).1)
    command_and_wait fuel cmd_write params
    st1 ← gets (λ s. s.results 1)
    pure (if is_error st1 then st1 else 0)

  unfoldable pub write_parts : ℕ → List ℕ → ℕ → ℕ → ℕ → Run (Driver c) ℕ
  write_parts fuel params address length zero = pure 0
  write_parts fuel params address length (suc rounds) = do
    code ← write_part fuel params address length 0x10000 true
    if code == 0 then write_parts fuel params address length rounds else pure code

  unfoldable pub write_chs : ℕ → ℕ → ℕ → ℕ → ℕ → ℕ → Run (Driver c) ℕ
  write_chs fuel drive cylinder head sector sector_count = do
    clear_bounce
    set_drive drive
    sector_max ← gets (λ s. s.sector_max)
    physical ← gets (λ s. s.bounce_physical)
    let params = parameters drive cylinder head sector sector_max in
        let transfer_count = sector_count * 512 in
        let rest = transfer_count % 0x10000 in
        if ltb 0x10000 transfer_count
        then (do
          code ← write_parts fuel params physical rest (transfer_count / 0x10000)
          if not (code == 0)
              then pure code
              else if ltb 1 rest
              then write_part fuel params physical rest rest true
              else pure 0)
        else write_part fuel params physical transfer_count transfer_count false

  -- The fields of a CHS are cut to bytes on the call.
  abbrev pub by_chs : (ℕ → ℕ → ℕ → Run (Driver c) ℕ) → ℕ → Run (Driver c) ℕ
  by_chs operation lba = do
    place ← gets (λ s. lba_to_chs s.head_count s.sector_max lba)
    elim place [
      | none ↦ fail
      | some x ↦ operation (x.cylinder % 0x100) (x.head % 0x100) (x.sector % 0x100)
    ]

  unfoldable pub read_lba : ℕ → ℕ → ℕ → ℕ → Run (Driver c) ℕ
  read_lba fuel drive lba sector_count =
      by_chs (λ cylinder head sector. read_chs fuel drive cylinder head sector sector_count) lba

  pub write_lba : ℕ → ℕ → ℕ → ℕ → Run (Driver c) ℕ
  write_lba fuel drive lba sector_count =
      by_chs (λ cylinder head sector. write_chs fuel drive cylinder head sector sector_count) lba
