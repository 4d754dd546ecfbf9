-- ===== src/Pci/Scan/Found.antt =====
-- What ScanBusses of src/kernel/drivers/Devices/PCI.c finds, on a machine whose data port shows a fixed
-- configuration space.
pub mod Controllers
use mathlib.Core.List.{append_assoc, append-nil}
use chud_os.Base.{
  ℕ, zero, suc, ◌+◌, ◌*◌, ◌≤◌, ◌<◌, ◌≡◌, refl, sym, ap, ◌∙◌, arith, Bool, true, false, inl, inr,
  ◌==◌, if◌then◌else◌, Bool-cases, update, update_self, update_ne, Option, none, some, List, [],
  ◌∷◌, ◌++◌,
}
use chud_os.Pci.{
  Ports, pci_config_address, pci_config_data, pci_create_config_address, pci_read_l, read_words,
}
use chud_os.Pci.Headers.{
  PciCommonHeader, PciHeader0, PciHeader1, common_header_of, header0_of, header1_of, nth_word,
  pci_read_common_header, pci_read_header0, pci_read_header1,
}
use chud_os.Pci.Scan.{
  PciDevice, Scanner, read_device, add_device, scan_slot, scan_slots, scan_from, scan_busses,
}

-- The data port shows the word of `config` at the address that was written last.
abbrev pub Answers : (p : Ports) → (ℕ → ℕ) → Type 0
Answers p config =
    (a : ℕ) (s : p.State) → (p.inl pci_config_data (p.outl pci_config_address a s)).0 ≡ config a

module _ (config : ℕ → ℕ) where
  -- The word of a device's configuration space at an offset.
  abbrev pub config_word : ℕ → ℕ → ℕ → ℕ
  config_word bus slot offset = config (pci_create_config_address bus slot 0 offset)

  abbrev pub header_at : ℕ → ℕ → PciCommonHeader
  header_at bus slot = common_header_of (λ i. config_word bus slot (i * 4))

  -- A device as the scan stores it: the words behind the common header are read as a plain device's where its
  -- header type is 0, and as a bridge's where it is anything else, also where it is the type 0x80 of a plain
  -- device with several functions.
  abbrev device_with : PciCommonHeader → ℕ → ℕ → PciDevice
  device_with header bus slot =
      let word : ℕ → ℕ = λ i. config_word bus slot (0x10 + i * 4) in
      let plain = header.header_type == 0 in
      record {
        header = header;
        header0 = if plain then some (header0_of word) else none;
        header1 = if plain then none else some (header1_of word);
        header_type = if plain then false else true;
        present = true;
        slot = slot;
        bus = bus;
      }

  -- The device in a slot, where there is one.
  abbrev pub device_at : ℕ → ℕ → Option PciDevice
  device_at bus slot =
      if (header_at bus slot).vendor_id == 0xFFFF
      then none
      else some (device_with (header_at bus slot) bus slot)

  abbrev prepend : Option PciDevice → List PciDevice → List PciDevice
  prepend none ds = ds
  prepend (some d) ds = d ∷ ds

  prepend-append : (o : Option PciDevice) (ds : List PciDevice) → prepend o [] ++ ds ≡ prepend o ds
  prepend-append none ds = refl
  prepend-append (some d) ds = refl

  -- The devices of a bus from a slot on, and of the buses from one on, in order.
  pub devices_of_bus : ℕ → ℕ → ℕ → List PciDevice
  devices_of_bus zero bus slot = []
  devices_of_bus (suc rounds) bus slot =
      prepend (device_at bus slot) (devices_of_bus rounds bus (suc slot))

  pub devices_from : ℕ → ℕ → List PciDevice
  devices_from zero bus = []
  devices_from (suc rounds) bus = devices_of_bus 32 bus 0 ++ devices_from rounds (suc bus)

add_one : (n : ℕ) → n + 1 ≡ suc n
add_one n = omega arith

-- The first `n` entries of an array.
abbrev pub taken : ℕ → (ℕ → PciDevice) → List PciDevice
taken zero f = []
taken (suc n) f = taken n f ++ f n ∷ []

taken-update :
    (n i : ℕ) (f : ℕ → PciDevice) (d : PciDevice) → n ≤ i → taken n (update f i d) ≡ taken n f
taken-update zero i f d h = refl
taken-update (suc n) i f d h =
    rw (taken-update n i f d (omega arith), update_ne f i d n (λ e. absurd (omega (arith, e)))) refl

taken_one_more :
    (n : ℕ) (f : ℕ → PciDevice) (d : PciDevice) → taken (n + 1) (update f n d) ≡ taken n f ++ d ∷ []
taken_one_more n f d = rw (add_one n, taken-update n n f d (omega arith), update_self f n d) refl

abbrev found : {p : Ports} → Scanner p → List PciDevice
found m = taken m.device_run m.devices

module _ (p : Ports) (config : ℕ → ℕ) (answers : Answers p config) where
  config_words : ℕ → ℕ → ℕ → ℕ → List ℕ
  config_words zero bus slot offset = []
  config_words (suc n) bus slot offset =
      config_word config bus slot offset ∷ config_words n bus slot (offset + 4)

  read_words-config :
      (n bus slot offset : ℕ) (s : p.State)
      → (read_words p n bus slot offset s).0 ≡ config_words n bus slot offset
  unfolding read_words config_words pci_read_l
  read_words-config zero bus slot offset s = refl
  read_words-config (suc n) bus slot offset s =
      rw (answers (pci_create_config_address bus slot 0 offset) s) (
        ap (λ (ws : List ℕ). config_word config bus slot offset ∷ ws)
          (read_words-config n bus slot (offset + 4) _))

  common_header-config :
      (bus slot : ℕ) (s : p.State)
      → (pci_read_common_header p bus slot s).0 ≡ header_at config bus slot
  unfolding pci_read_common_header config_words common_header_of
  common_header-config bus slot s =
      ap (λ ws. common_header_of (nth_word ws)) (read_words-config 4 bus slot 0 s)

  header0-config :
      (bus slot : ℕ) (s : p.State)
      → (pci_read_header0 p bus slot s).0
        ≡ header0_of (λ i. config_word config bus slot (0x10 + i * 4))
  unfolding pci_read_header0 config_words common_header_of header0_of
  header0-config bus slot s =
      ap (λ ws. header0_of (nth_word ws)) (read_words-config 16 bus slot 0x10 s)

  header1-config :
      (bus slot : ℕ) (s : p.State)
      → (pci_read_header1 p bus slot s).0
        ≡ header1_of (λ i. config_word config bus slot (0x10 + i * 4))
  unfolding pci_read_header1 config_words common_header_of header1_of
  header1-config bus slot s =
      ap (λ ws. header1_of (nth_word ws)) (read_words-config 16 bus slot 0x10 s)

  read_device-config :
      (h : PciCommonHeader) (bus slot : ℕ) (s : p.State)
      → (read_device p h bus slot s).0 ≡ device_with config h bus slot
  unfolding read_device
  read_device-config h bus slot s = elim (Bool-cases (h.header_type == 0)) [
    | inl plain ↦ rw plain (rw (header0-config bus slot s) refl)
    | inr bridge ↦ rw bridge (rw (header1-config bus slot s) refl)
  ]

  -- What one slot adds.
  record Adds (ds : List PciDevice) (rounds : ℕ) (m m' : Scanner p) : Type 0 where
    more : found m' ≡ found m ++ ds
    count : m'.device_run ≤ m.device_run + rounds

  Adds-trans :
      (ds es : List PciDevice) (i j : ℕ) (m m' m'' : Scanner p)
      → Adds ds i m m'
      → Adds es j m' m''
      → Adds (ds ++ es) (i + j) m m''
  Adds-trans ds es i j m m' m'' one two = record {
    more = two.more ∙ ap (λ fs. fs ++ es) one.more ∙ append_assoc (found m) ds es;
    count = omega (arith, one.count, two.count);
  }

  add_device-Adds :
      (d : PciDevice) (s : p.State) (m : Scanner p) → Adds (d ∷ []) 1 m (add_device p d s m)
  unfolding add_device
  add_device-Adds d s m = record {
    more = taken_one_more m.device_run m.devices d;
    count = omega arith;
  }

  scan_slot-Adds :
      (bus slot : ℕ) (m : Scanner p)
      → Adds (prepend config (device_at config bus slot) []) 1 m (scan_slot p bus slot m)
  unfolding scan_slot
  scan_slot-Adds bus slot m =
      let h = common_header-config bus slot m.io in
      let s = (pci_read_common_header p bus slot m.io).1 in
      elim (Bool-cases ((header_at config bus slot).vendor_id == 0xFFFF)) [
        | inl empty ↦
            rw (h, empty) (record { more = sym (append-nil (found m)); count = omega arith })
        | inr full ↦
            rw (h, full, read_device-config (header_at config bus slot) bus slot s)
              (add_device-Adds (device_with config (header_at config bus slot) bus slot) _ m)
      ]

  scan_slots-Adds :
      (rounds bus slot : ℕ) (m : Scanner p)
      → Adds (devices_of_bus config rounds bus slot) rounds m (scan_slots p rounds bus slot m)
  unfolding scan_slots devices_of_bus
  scan_slots-Adds zero bus slot m = record {
    more = sym (append-nil (found m));
    count = omega arith;
  }
  scan_slots-Adds (suc rounds) bus slot m =
      let rest = devices_of_bus config rounds bus (suc slot) in
      let adds =
        Adds-trans (prepend config (device_at config bus slot) []) rest 1 rounds m
          (scan_slot p bus slot m) _ (scan_slot-Adds bus slot m)
          (scan_slots-Adds rounds bus (suc slot) (scan_slot p bus slot m)) in
      record {
        more =
            adds.more
            ∙ ap (λ ds. found m ++ ds) (prepend-append config (device_at config bus slot) rest);
        count = omega (arith, adds.count);
      }

  scan_from-Adds :
      (rounds bus : ℕ) (m : Scanner p)
      → Adds (devices_from config rounds bus) (rounds * 32) m (scan_from p rounds bus m)
  unfolding scan_from devices_from
  scan_from-Adds zero bus m = record { more = sym (append-nil (found m)); count = omega arith }
  scan_from-Adds (suc rounds) bus m =
      let here = scan_slots p 32 bus 0 m in
      let adds =
        Adds-trans (devices_of_bus config 32 bus 0) (devices_from config rounds (suc bus)) 32
          (rounds * 32) m here _ (scan_slots-Adds 32 bus 0 m)
          (scan_from-Adds rounds (suc bus) here) in
      record { more = adds.more; count = omega (arith, adds.count) }

-- On a machine whose data port shows a fixed configuration space, ScanBusses fills the array with
-- exactly the devices of the slots of the first eight buses that have a vendor, in the order of bus and
-- slot, and counts them; they are at most 256, the length of the array. Each is stored with its place, its
-- common header and, behind that, the header of a plain device where its header type is 0, and the header of a
-- bridge where its header type is anything else.
pub scan_busses-found :
    (p : Ports) (config : ℕ → ℕ) (m : Scanner p)
    → Answers p config
    → (taken (scan_busses p m).device_run (scan_busses p m).devices ≡ devices_from config 8 0)
      × ((scan_busses p m).device_run ≤ 256)
unfolding scan_busses
scan_busses-found p config m answers =
    let adds = scan_from-Adds p config answers 8 0 (record m { device_run = 0 }) in
    (adds.more, omega (arith, adds.count))
