-- ===== src/Pci/Tests.antt =====
-- Runs of the PCI driver on a machine with a host bridge and a disk controller on bus 0.
use chud_os.Base.{ℕ, ◌+◌, ◌/◌, ◌≤◌, ◌≡◌, refl, arith, true, false, ◌==◌, if◌then◌else◌, none}
use chud_os.Pci.{Ports, pci_create_config_address}
use chud_os.Pci.Headers.{common_header_of}
use chud_os.Pci.Scan.{Scanner, scan_busses}
use chud_os.Pci.Scan.Found.{Answers, taken, devices_from, scan_busses-found}
use chud_os.Pci.Scan.Found.Controllers.{Selected, scan_busses-Selected}
use chud_os.Pci.Registers.{CommandRegister, pci_write_status_register, pci_write_command_register}
use chud_os.Pci.Address.{pci_create_config_address-injective, pci_write_status_register-command}

-- Slot 1 of bus 0 has a bridge, and slot 2 an AHCI controller.
config : ℕ → ℕ
config a =
    if a == 0x8000_0800
    then 0x7000_8086
    else if a == 0x8000_0808
    then 0x0680_0000
    else if a == 0x8000_1000
    then 0x2922_8086
    else if a == 0x8000_1008
    then 0x0106_0102
    else if a == 0x8000_100C
    then 0
    else if a == 0x8000_080C
    then 0x0001_0000
    else 0xFFFF_FFFF

-- The machine's state is the address that was written last.
abbrev machine : Ports
machine = record {
  State = ℕ;
  outl = λ port v s. if port == 0xCF8 then v else s;
  outw = λ port v s. s;
  inl = λ port s. (config s, s);
}

abbrev before : Scanner machine
before = record {
  io = 0;
  devices = λ i. record {
    header = common_header_of (λ j. 0);
    header0 = none;
    header1 = none;
    header_type = false;
    present = false;
    slot = 0;
    bus = 0;
  };
  device_run = 0;
  ahci_controller = none;
  floppy_controller = none;
}

machine-Answers : Answers machine config
machine-Answers a s = refl

scan_busses-found_example :
    (taken (scan_busses machine before).device_run (scan_busses machine before).devices
      ≡ devices_from config 8 0)
    × ((scan_busses machine before).device_run ≤ 256)
scan_busses-found_example = scan_busses-found machine config before machine-Answers

scan_busses-Selected_example : Selected (scan_busses machine before)
scan_busses-Selected_example = scan_busses-Selected machine before refl refl

abbrev third_bus : ℕ
third_bus = 3

abbrev status_offset : ℕ
status_offset = 0x6

pci_create_config_address-injective_example :
    (third_bus ≡ 3) × (third_bus + 4 ≡ 7) × (third_bus ≡ 3) × (status_offset / 4 ≡ 0x4 / 4)
unfolding pci_create_config_address
pci_create_config_address-injective_example =
    pci_create_config_address-injective third_bus (third_bus + 4) third_bus status_offset 3 7 3 0x4
      (omega arith, omega arith, omega arith, omega arith)
      (omega arith, omega arith, omega arith, omega arith) refl

abbrev bus_master : CommandRegister
bus_master = record {
  io_space = true;
  memory_space = true;
  bus_master = true;
  parity_err_response = false;
  serr_enable = false;
  interrupt_disable = false;
}

pci_write_status_register-command_example :
    pci_write_status_register machine bus_master (before.devices 0) 0
    ≡ pci_write_command_register machine bus_master (before.devices 0) 0
pci_write_status_register-command_example =
    pci_write_status_register-command machine bus_master (before.devices 0) 0
