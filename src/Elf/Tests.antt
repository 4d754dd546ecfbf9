-- ===== src/Elf/Tests.antt =====
-- A segment that starts in the middle of a sector.
use chud_os.Base.{ℕ, ◌+◌, ◌*◌, ◌%◌, ◌≤◌, ◌<◌, ◌≡◌, refl, arith, inl, inr}
use chud_os.Elf.{ProgramHeader64, page_start, num_pages, read_segment}
use chud_os.Elf.Segments.{Fits, Arrives, num_pages-covers, read_segment-file, read_segment-inside}

abbrev text_segment : ProgramHeader64
text_segment = record {
  p_type = 1;
  p_flags = 5;
  p_offset = 0x1110;
  p_vaddr = 0x40_1110;
  p_filesz = 0x900;
  p_memsz = 0xA00;
}

abbrev sectors : ℕ → ℕ → ℕ
sectors lba i = (lba + i) % 256

text_segment-Fits : Fits sectors 20 text_segment
text_segment-Fits = record { memory = omega arith; disk = omega arith; one_command = omega arith }

num_pages-covers_example :
    (page_start 0x40_1110 ≤ 0x40_1110)
    × (0x40_1B10 ≤ page_start 0x40_1110 + num_pages text_segment * 0x1000)
    × (page_start 0x40_1110 + num_pages text_segment * 0x1000 < 0x40_2B10)
num_pages-covers_example = num_pages-covers text_segment (omega arith)

read_segment-file_example :
    Arrives sectors 20 text_segment 0xEF
      (read_segment sectors 20 text_segment (λ p. 0) (0x40_1110 + 0xEF))
read_segment-file_example =
    read_segment-file sectors 20 text_segment (λ p. 0) 0xEF text_segment-Fits (inr (omega arith))
      (omega arith)

read_segment-inside_example : read_segment sectors 20 text_segment (λ p. 0) 0x40_0FFF ≡ 0
read_segment-inside_example =
    read_segment-inside sectors 20 text_segment (λ p. 0) 0x40_0FFF text_segment-Fits
      (inr (omega arith)) (omega arith) refl (omega arith) (omega arith) (inl (omega arith))
