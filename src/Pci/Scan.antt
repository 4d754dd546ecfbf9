-- ===== src/Pci/Scan.antt =====
-- ScanBusses of src/kernel/drivers/Devices/PCI.c. A struct that is left uninitialised for a device is `none`, and
-- a pointer into `Devices` is an index.
pub mod Found
use chud_os.Base.{
  ℕ, zero, suc, ◌+◌, Bool, true, false, not, ◌&&◌, ◌==◌, if◌then◌else◌, update, Option, none, some,
}
use chud_os.Pci.{Ports}
use chud_os.Pci.Headers.{
  PciCommonHeader, PciHeader0, PciHeader1, pci_read_common_header, pci_read_header0,
  pci_read_header1,
}

pub record PciDevice : Type 0 where
  pub header : PciCommonHeader
  pub header0 : Option PciHeader0
  pub header1 : Option PciHeader1
  pub header_type : Bool
  pub present : Bool
  pub slot : ℕ
  pub bus : ℕ

-- The variables that the scan sets, with the state of the machine.
pub record Scanner (p : Ports) : Type 0 where
  pub io : p.State
  pub devices : ℕ → PciDevice
  pub device_run : ℕ
  pub ahci_controller : Option ℕ
  pub floppy_controller : Option ℕ

abbrev pub is_ahci : PciCommonHeader → Bool
is_ahci h = (h.class_code == 0x01) && (h.sub_class == 0x06) && (h.prog_if == 0x01)

abbrev pub is_floppy : PciCommonHeader → Bool
is_floppy h = (h.class_code == 0x01) && (h.sub_class == 0x02) && (h.prog_if == 0x00)

module _ (p : Ports) where
  -- `HeaderType = 0x01` in the second test is an assignment, so that every other type is read as a bridge.
  unfoldable pub read_device : PciCommonHeader → ℕ → ℕ → p.State → PciDevice × p.State
  read_device header bus slot s =
      let (h0, s0) = pci_read_header0 p bus slot s in
      let (h1, s1) = pci_read_header1 p bus slot s in
      if header.header_type == 0
      then (
        record {
          header = header;
          header0 = some h0;
          header1 = none;
          header_type = false;
          present = true;
          slot = slot;
          bus = bus;
        },
        s0,
      )
      else (
        record {
          header = header;
          header0 = none;
          header1 = some h1;
          header_type = true;
          present = true;
          slot = slot;
          bus = bus;
        },
        s1,
      )

  unfoldable pub add_device : PciDevice → p.State → Scanner p → Scanner p
  add_device device s m = record {
    io = s;
    devices = update m.devices m.device_run device;
    device_run = m.device_run + 1;
    ahci_controller = if is_ahci device.header then some m.device_run else m.ahci_controller;
    floppy_controller =
        if not (is_ahci device.header) && is_floppy device.header
        then some m.device_run
        else m.floppy_controller;
  }

  unfoldable pub scan_slot : ℕ → ℕ → Scanner p → Scanner p
  scan_slot bus slot m =
      let (header, s) = pci_read_common_header p bus slot m.io in
      let (device, s') = read_device header bus slot s in
      if header.vendor_id == 0xFFFF then record m { io = s } else add_device device s' m

  -- The two loops, for a number of rounds from a slot, and from a bus, on.
  unfoldable pub scan_slots : ℕ → ℕ → ℕ → Scanner p → Scanner p
  scan_slots zero bus slot m = m
  scan_slots (suc rounds) bus slot m = scan_slots rounds bus (suc slot) (scan_slot bus slot m)

  unfoldable pub scan_from : ℕ → ℕ → Scanner p → Scanner p
  scan_from zero bus m = m
  scan_from (suc rounds) bus m = scan_from rounds (suc bus) (scan_slots 32 bus 0 m)

  -- `device_count` is the `device_run` of the result.
  unfoldable pub scan_busses : Scanner p → Scanner p
  scan_busses m = scan_from 8 0 (record m { device_run = 0 })
