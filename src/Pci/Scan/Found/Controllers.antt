-- ===== src/Pci/Scan/Found/Controllers.antt =====
-- The controllers that ScanBusses of src/kernel/drivers/Devices/PCI.c selects.
use chud_os.Base.{
  ℕ, zero, suc, ◌+◌, ◌≤◌, ◌<◌, ◌≡◌, ap, ◌∙◌, arith, Bool, true, false, not, ◌&&◌, inl, inr, ◌==◌,
  if◌then◌else◌, Bool-cases, update, update_self, update_ne, Option, none, some,
}
use native.Mathlib.Decide.{ℕ_discrete}
use chud_os.Pci.{Ports}
use chud_os.Pci.Headers.{PciCommonHeader, pci_read_common_header}
use chud_os.Pci.Scan.{
  PciDevice, Scanner, is_ahci, is_floppy, add_device, scan_slot, scan_slots, scan_from, scan_busses,
}

-- A pointer to the last of the first `n` devices that has a kind, and NULL where none has it.
abbrev pub IsLast : (PciCommonHeader → Bool) → ℕ → (ℕ → PciDevice) → Option ℕ → Type 0
IsLast kind n devices none = (i : ℕ) → i < n → kind (devices i).header ≡ false
IsLast kind n devices (some last) =
    (last < n)
    × (kind (devices last).header ≡ true)
    × ((i : ℕ) → last < i → i < n → kind (devices i).header ≡ false)

-- The next device becomes the last of its kind, and leaves the one before in place otherwise.
module _ (kind : PciCommonHeader → Bool) (n : ℕ) (devices : ℕ → PciDevice) (d : PciDevice) where
  extended : ℕ → PciDevice
  extended = update devices n d

  extended_below : (i : ℕ) → i < n → extended i ≡ devices i
  unfolding extended
  extended_below i h = update_ne devices n d i (λ e. absurd (omega (arith, e)))

  extended_self : extended n ≡ d
  unfolding extended
  extended_self = update_self devices n d

  lacks :
      (from : ℕ)
      → ((i : ℕ) → from ≤ i → i < n → kind (devices i).header ≡ false)
      → kind d.header ≡ false
      → (i : ℕ) → from ≤ i
      → i < n + 1
      → kind (extended i).header ≡ false
  lacks from before other i h h' = elim (ℕ_discrete i n) [
    | yes e ↦
        ap (λ j. kind (extended j).header) e
        ∙ ap (λ (x : PciDevice). kind x.header) extended_self
        ∙ other
    | no ne ↦
        ap (λ (x : PciDevice). kind x.header) (extended_below i (omega arith))
        ∙ before i h (omega arith)
  ]

  IsLast-other :
      (o : Option ℕ)
      → IsLast kind n devices o
      → kind d.header ≡ false
      → IsLast kind (n + 1) extended o
  IsLast-other none last other = λ i h. lacks 0 (λ j h' h''. last j h'') other i (omega arith) h
  IsLast-other (some l) last other = (
    omega (arith, last.0),
    ap (λ (x : PciDevice). kind x.header) (extended_below l last.0) ∙ last.1,
    λ i h h'. lacks (suc l) (λ j a b. last.2 j (omega arith) b) other i (omega arith) h',
  )

  IsLast-next : kind d.header ≡ true → IsLast kind (n + 1) extended (some n)
  IsLast-next same = (
    omega arith,
    ap (λ (x : PciDevice). kind x.header) extended_self ∙ same,
    λ i h h'. absurd (omega arith),
  )

  IsLast-extend :
      (o : Option ℕ)
      → IsLast kind n devices o
      → IsLast kind (n + 1) extended (if kind d.header then some n else o)
  IsLast-extend o last = elim (Bool-cases (kind d.header)) [
    | inl same ↦ rw same (IsLast-next same)
    | inr other ↦ rw other (IsLast-other o last other)
  ]

is_floppy_lem : (h : PciCommonHeader) → (not (is_ahci h) && is_floppy h) ≡ is_floppy h
is_floppy_lem h = ground arith

-- What the scan keeps of the two pointers.
abbrev pub Selected : {p : Ports} → Scanner p → Type 0
Selected m =
    IsLast is_ahci m.device_run m.devices m.ahci_controller
    × IsLast is_floppy m.device_run m.devices m.floppy_controller

module _ (p : Ports) where
  add_device-Selected :
      (d : PciDevice) (s : p.State) (m : Scanner p) → Selected m → Selected (add_device p d s m)
  unfolding add_device extended
  add_device-Selected d s m h = (
    IsLast-extend is_ahci m.device_run m.devices d m.ahci_controller h.0,
    rw (is_floppy_lem d.header)
        (IsLast-extend is_floppy m.device_run m.devices d m.floppy_controller h.1),
  )

  scan_slot-Selected :
      (bus slot : ℕ) (m : Scanner p) → Selected m → Selected (scan_slot p bus slot m)
  unfolding scan_slot
  scan_slot-Selected bus slot m h =
      let header = (pci_read_common_header p bus slot m.io).0 in
      elim (Bool-cases (header.vendor_id == 0xFFFF)) [
        | inl empty ↦ rw empty h
        | inr full ↦ rw full (add_device-Selected _ _ m h)
      ]

  scan_slots-Selected :
      (rounds bus slot : ℕ) (m : Scanner p) → Selected m → Selected (scan_slots p rounds bus slot m)
  unfolding scan_slots
  scan_slots-Selected zero bus slot m h = h
  scan_slots-Selected (suc rounds) bus slot m h =
      scan_slots-Selected rounds bus (suc slot) (scan_slot p bus slot m)
        (scan_slot-Selected bus slot m h)

  scan_from-Selected :
      (rounds bus : ℕ) (m : Scanner p) → Selected m → Selected (scan_from p rounds bus m)
  unfolding scan_from
  scan_from-Selected zero bus m h = h
  scan_from-Selected (suc rounds) bus m h =
      scan_from-Selected rounds (suc bus) (scan_slots p 32 bus 0 m)
        (scan_slots-Selected 32 bus 0 m h)

-- Where both pointers are NULL before, ScanBusses, on any machine, leaves AHCI_Controller at the last
-- device found that has class 1, subclass 6 and interface 1, FLOPPY_Controller at the last with class 1,
-- subclass 2 and interface 0, and a pointer NULL where no device found is of its kind.
pub scan_busses-Selected :
    (p : Ports) (m : Scanner p)
    → m.ahci_controller ≡ none
    → m.floppy_controller ≡ none
    → Selected (scan_busses p m)
unfolding scan_busses
scan_busses-Selected p m ahci floppy =
    scan_from-Selected p 8 0 (record m { device_run = 0 })
      (rw (ahci, floppy) (λ i h. absurd (omega arith), λ i h. absurd (omega arith)))
