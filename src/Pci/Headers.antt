-- ===== src/Pci/Headers.antt =====
-- PCI_ReadCommonHeader, PCI_ReadHeader0 and PCI_ReadHeader1 of src/kernel/drivers/Devices/PCI.c: the structs as
-- the words of configuration space that are written over them.
use chud_os.Base.{ℕ, ◌+◌, ◌*◌, ◌/◌, ◌%◌, ◌^◌, List, get_or}
use chud_os.Pci.{Ports, read_words}

pub record PciCommonHeader : Type 0 where
  pub vendor_id : ℕ
  pub device_id : ℕ
  pub command : ℕ
  pub status : ℕ
  pub revision_id : ℕ
  pub prog_if : ℕ
  pub sub_class : ℕ
  pub class_code : ℕ
  pub cache_line_size : ℕ
  pub latency_timer : ℕ
  pub header_type : ℕ
  pub bist : ℕ

pub record PciHeader0 : Type 0 where
  pub bar0 : ℕ
  pub bar1 : ℕ
  pub bar2 : ℕ
  pub bar3 : ℕ
  pub bar4 : ℕ
  pub bar5 : ℕ
  pub cardbus_cis : ℕ
  pub subsystem_vendor_id : ℕ
  pub subsystem_id : ℕ
  pub expansion_rom : ℕ
  pub capability_pointer : ℕ
  pub reserved1 : ℕ
  pub reserved2 : ℕ
  pub interrupt_line : ℕ
  pub interrupt_pin : ℕ
  pub min_grant : ℕ
  pub max_latency : ℕ
  pub common_header : PciCommonHeader

pub record PciHeader1 : Type 0 where
  pub bar0 : ℕ
  pub bar1 : ℕ
  pub primary_bus_number : ℕ
  pub secondary_bus_number : ℕ
  pub subordinate_bus_number : ℕ
  pub secondary_latency_timer : ℕ
  pub io_base : ℕ
  pub io_limit : ℕ
  pub secondary_status : ℕ
  pub memory_base : ℕ
  pub memory_limit : ℕ
  pub prefetch_memory_base_lower : ℕ
  pub prefetch_memory_limit_lower : ℕ
  pub prefetch_base_upper : ℕ
  pub prefetch_limit_upper : ℕ
  pub io_base_upper : ℕ
  pub io_limit_upper : ℕ
  pub capability_pointer : ℕ
  pub reserved1 : ℕ
  pub expansion_rom : ℕ
  pub interrupt_line : ℕ
  pub interrupt_pin : ℕ
  pub bridge_control : ℕ
  pub common_header : PciCommonHeader

-- The fields of a little-endian word: its bytes and its halves.
abbrev pub byte_of : ℕ → ℕ → ℕ
byte_of i word = word / 2 ^ (8 * i) % 2 ^ 8

abbrev pub half_of : ℕ → ℕ → ℕ
half_of i word = word / 2 ^ (16 * i) % 2 ^ 16

-- `word i` is the word at the struct's offset `4 * i`.
unfoldable pub common_header_of : (ℕ → ℕ) → PciCommonHeader
common_header_of word = record {
  vendor_id = half_of 0 (word 0);
  device_id = half_of 1 (word 0);
  command = half_of 0 (word 1);
  status = half_of 1 (word 1);
  revision_id = byte_of 0 (word 2);
  prog_if = byte_of 1 (word 2);
  sub_class = byte_of 2 (word 2);
  class_code = byte_of 3 (word 2);
  cache_line_size = byte_of 0 (word 3);
  latency_timer = byte_of 1 (word 3);
  header_type = byte_of 2 (word 3);
  bist = byte_of 3 (word 3);
}

-- The common header that was stored before is under the last four of the sixteen words.
unfoldable pub header0_of : (ℕ → ℕ) → PciHeader0
header0_of word = record {
  bar0 = word 0;
  bar1 = word 1;
  bar2 = word 2;
  bar3 = word 3;
  bar4 = word 4;
  bar5 = word 5;
  cardbus_cis = word 6;
  subsystem_vendor_id = half_of 0 (word 7);
  subsystem_id = half_of 1 (word 7);
  expansion_rom = word 8;
  capability_pointer = half_of 0 (word 9);
  reserved1 = half_of 1 (word 9);
  reserved2 = word 10;
  interrupt_line = byte_of 0 (word 11);
  interrupt_pin = byte_of 1 (word 11);
  min_grant = byte_of 2 (word 11);
  max_latency = byte_of 3 (word 11);
  common_header = common_header_of (λ i. word (12 + i));
}

unfoldable pub header1_of : (ℕ → ℕ) → PciHeader1
header1_of word = record {
  bar0 = word 0;
  bar1 = word 1;
  primary_bus_number = byte_of 0 (word 2);
  secondary_bus_number = byte_of 1 (word 2);
  subordinate_bus_number = byte_of 2 (word 2);
  secondary_latency_timer = byte_of 3 (word 2);
  io_base = byte_of 0 (word 3);
  io_limit = byte_of 1 (word 3);
  secondary_status = half_of 1 (word 3);
  memory_base = half_of 0 (word 4);
  memory_limit = half_of 1 (word 4);
  prefetch_memory_base_lower = half_of 0 (word 5);
  prefetch_memory_limit_lower = half_of 1 (word 5);
  prefetch_base_upper = word 6;
  prefetch_limit_upper = word 7;
  io_base_upper = half_of 0 (word 8);
  io_limit_upper = half_of 1 (word 8);
  capability_pointer = half_of 0 (word 9);
  reserved1 = half_of 1 (word 9);
  expansion_rom = word 10;
  interrupt_line = byte_of 0 (word 11);
  interrupt_pin = byte_of 1 (word 11);
  bridge_control = half_of 1 (word 11);
  common_header = common_header_of (λ i. word (12 + i));
}

abbrev pub nth_word : List ℕ → ℕ → ℕ
nth_word words i = get_or words i 0

module _ (p : Ports) where
  unfoldable pub pci_read_common_header : ℕ → ℕ → p.State → PciCommonHeader × p.State
  pci_read_common_header bus slot s =
      let (words, s') = read_words p 4 bus slot 0 s in (common_header_of (nth_word words), s')

  unfoldable pub pci_read_header0 : ℕ → ℕ → p.State → PciHeader0 × p.State
  pci_read_header0 bus slot s =
      let (words, s') = read_words p 16 bus slot 0x10 s in (header0_of (nth_word words), s')

  unfoldable pub pci_read_header1 : ℕ → ℕ → p.State → PciHeader1 × p.State
  pci_read_header1 bus slot s =
      let (words, s') = read_words p 16 bus slot 0x10 s in (header1_of (nth_word words), s')
