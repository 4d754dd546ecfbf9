-- ===== src/Pci/Address.antt =====
-- The configuration addresses of src/kernel/drivers/Devices/PCI.c.
use chud_os.Base.{ℕ, ◌+◌, ◌*◌, ◌/◌, ◌^◌, ◌<◌, ◌≡◌, refl, sym, ◌∙◌, arith, bit_and}
use chud_os.Base.Bits.{bit_and-field, bit_or_multiple, bit_or_disjoint_right}
use chud_os.Pci.{Ports, pci_create_config_address}
use chud_os.Pci.Scan.{PciDevice}
use chud_os.Pci.Registers.{CommandRegister, pci_write_command_register, pci_write_status_register}

decode :
    (bus slot func offset : ℕ)
    → slot < 32
    → func < 8
    → bus < 256
    → offset < 256
    → pci_create_config_address bus slot func offset
      ≡ bus * 2 ^ 16 + slot * 2 ^ 11 + func * 2 ^ 8 + offset / 4 * 4 + 0x8000_0000
unfolding pci_create_config_address
decode bus slot func offset hs hf hb ho =
    let low : bit_and offset 0xFC ≡ offset / 4 * 4 = bit_and-field 2 6 offset ∙ omega arith in
    rw (low) (
      rw (bit_or_multiple 16 bus (bus * 2 ^ 16) (slot * 2 ^ 11) refl (omega arith)) (
        rw
          (bit_or_multiple 11 (bus * 32 + slot) (bus * 2 ^ 16 + slot * 2 ^ 11) (func * 2 ^ 8)
            (omega arith) (omega arith))
          (rw
            (bit_or_multiple 8 (bus * 256 + slot * 8 + func)
              (bus * 2 ^ 16 + slot * 2 ^ 11 + func * 2 ^ 8) (offset / 4 * 4) (omega arith)
              (omega arith))
            (bit_or_disjoint_right 31 1
              (bus * 2 ^ 16 + slot * 2 ^ 11 + func * 2 ^ 8 + offset / 4 * 4) (omega arith)))))

-- For buses and offsets that are bytes, slots below 32 and functions below 8, two configuration addresses
-- are equal only if they are of the same bus, slot, function and word.
pub pci_create_config_address-injective :
    (bus slot func offset bus' slot' func' offset' : ℕ)
    → (bus < 256) × (slot < 32) × (func < 8) × (offset < 256)
    → (bus' < 256) × (slot' < 32) × (func' < 8) × (offset' < 256)
    → pci_create_config_address bus slot func offset
      ≡ pci_create_config_address bus' slot' func' offset'
    → (bus ≡ bus') × (slot ≡ slot') × (func ≡ func') × (offset / 4 ≡ offset' / 4)
pci_create_config_address-injective bus slot func offset bus' slot' func' offset' h h' e =
    let left = decode bus slot func offset h.1 h.2 h.0 h.3 in
    let right = decode bus' slot' func' offset' h'.1 h'.2 h'.0 h'.3 in
    let same = sym left ∙ e ∙ right in
    (omega (arith, same), omega (arith, same), omega (arith, same), omega (arith, same))

-- PCI_Write_Status_Register does what PCI_Write_Command_Register does: the offset of the status
-- register is cut to that of its word, so the value goes into the command register.
pub pci_write_status_register-command :
    (p : Ports) (command : CommandRegister) (device : PciDevice) (s : p.State)
    → pci_write_status_register p command device s ≡ pci_write_command_register p command device s
unfolding pci_write_status_register pci_write_command_register pci_create_config_address
pci_write_status_register-command p command device s = refl
