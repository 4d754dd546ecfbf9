-- ===== src/Pci.antt =====
-- Configuration space access of src/kernel/drivers/Devices/PCI.c with the structs of
-- include/Devices/PCI.h. The machine behind the two ports is a parameter.
pub mod Headers
pub mod Scan
pub mod Registers
pub mod Address
mod Tests
use chud_os.Base.{ℕ, zero, suc, ◌+◌, ◌*◌, ◌/◌, ◌%◌, ◌^◌, bit_and, bit_or, List, [], ◌∷◌}

-- `outl`, `outw` and `inl`: what the machine does at a port, with its state.
pub record Ports : Type 1 where
  pub State : Type 0
  pub outl : ℕ → ℕ → State → State
  pub outw : ℕ → ℕ → State → State
  pub inl : ℕ → State → ℕ × State

abbrev pub pci_config_address : ℕ
pci_config_address = 0xCF8

abbrev pub pci_config_data : ℕ
pci_config_data = 0xCFC

pub two_piece_bar_to_phys_address : ℕ → ℕ → ℕ
two_piece_bar_to_phys_address bar0 bar1 = bit_or (bar1 * 2 ^ 32) bar0

unfoldable pub pci_create_config_address : ℕ → ℕ → ℕ → ℕ → ℕ
pci_create_config_address bus slot func offset =
    bit_or
      (bit_or (bit_or (bit_or (bus * 2 ^ 16) (slot * 2 ^ 11)) (func * 2 ^ 8)) (bit_and offset 0xFC))
      0x8000_0000

module _ (p : Ports) where
  unfoldable pub pci_read_l : ℕ → ℕ → ℕ → p.State → ℕ × p.State
  pci_read_l bus slot offset s =
      p.inl pci_config_data
        (p.outl pci_config_address (pci_create_config_address bus slot 0 offset) s)

  -- The half of the word that bit 1 of the offset selects.
  pub pci_read_w : ℕ → ℕ → ℕ → p.State → ℕ × p.State
  pci_read_w bus slot offset s =
      let (word, s') = pci_read_l bus slot offset s in
      (word / 2 ^ (bit_and offset 2 * 8) % 2 ^ 16, s')

  pub pci_writew : ℕ → ℕ → p.State → p.State
  pci_writew address data_word s =
      p.outw pci_config_data (data_word % 2 ^ 16) (p.outl pci_config_address address s)

  -- The loops that fill a struct: `count` words of configuration space, from `offset` on.
  unfoldable pub read_words : ℕ → ℕ → ℕ → ℕ → p.State → List ℕ × p.State
  read_words zero bus slot offset s = ([], s)
  read_words (suc count) bus slot offset s =
      let (word, s') = pci_read_l bus slot offset s in
      let (words, s'') = read_words count bus slot (offset + 4) s' in (word ∷ words, s'')
