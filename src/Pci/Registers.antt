-- ===== src/Pci/Registers.antt =====
-- PCI_Update_Important_Info, PCI_Write_Command_Register and PCI_Write_Status_Register of
-- src/kernel/drivers/Devices/PCI.c.
use chud_os.Base.{ℕ, ◌+◌, ◌/◌, ◌^◌, Bool, bit_and, if◌then◌else◌}
use chud_os.Pci.{Ports, pci_create_config_address, pci_read_l, pci_writew}
use chud_os.Pci.Scan.{PciDevice}

-- `PCI_Command_Register`.
pub record CommandRegister : Type 0 where
  pub io_space : Bool
  pub memory_space : Bool
  pub bus_master : Bool
  pub parity_err_response : Bool
  pub serr_enable : Bool
  pub interrupt_disable : Bool

abbrev flag : Bool → ℕ → ℕ
flag b k = if b then 2 ^ k else 0

-- The bits are disjoint, so `|` is `+`.
unfoldable pub command_word : CommandRegister → ℕ
command_word c =
    flag c.io_space 0
    + flag c.memory_space 1
    + flag c.bus_master 2
    + flag c.parity_err_response 6
    + flag c.serr_enable 8
    + flag c.interrupt_disable 10

module _ (p : Ports) where
  pub pci_update_important_info : PciDevice → p.State → PciDevice × p.State
  pci_update_important_info device s =
      let (combo, s') = pci_read_l p device.bus device.slot 0x4 s in
      (
        record device {
          header = record device.header {
            command = bit_and combo 0xFFF;
            status = bit_and (combo / 2 ^ 16) 0xFFF;
          };
        },
        s',
      )

  unfoldable pub pci_write_command_register :
      CommandRegister → PciDevice → p.State → PciDevice × p.State
  pci_write_command_register command device s = pci_update_important_info device (
      pci_writew p (pci_create_config_address device.bus device.slot 0 0x4) (command_word command)
        s)

  -- It takes a command register too.
  unfoldable pub pci_write_status_register :
      CommandRegister → PciDevice → p.State → PciDevice × p.State
  pci_write_status_register command device s = pci_update_important_info device (
      pci_writew p (pci_create_config_address device.bus device.slot 0 0x6) (command_word command)
        s)
