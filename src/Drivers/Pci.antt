-- ===== src/Drivers/Pci.antt =====
-- PCI enumeration, kernel/src/drivers/pci.c. `config` answers a read of the data port after an
-- address was written to the address port.
use chef_os.Prelude.{
  ℕ, zero, suc, ◌+◌, ◌*◌, ◌≡◌, refl, bit_and, bit_or, u8, u16, u32, shl, shr, ◌==◌, ltb, Bool, true,
  not, ◌&&◌, ◌||◌, if◌then◌else◌, List, [], ◌∷◌, ◌++◌, Option, none, some, length, take, arith,
  Bool-cases, inl, inr, ◌∙◌,
}
use mathlib.Core.List.{append_assoc, append-nil}

pub record PciDevice : Type 0 where
  pub bus : ℕ
  pub device : ℕ
  pub function : ℕ
  pub vendor_id : ℕ
  pub device_id : ℕ
  pub class_code : ℕ
  pub subclass : ℕ
  pub prog_if : ℕ
  pub bar0 : ℕ

abbrev pub config_address : (bus dev func offset : ℕ) → ℕ
config_address bus dev func offset =
    bit_or
      (bit_or (bit_or (bit_or (shl 1 31) (u32 (shl bus 16))) (u32 (shl dev 11))) (u32 (shl func 8)))
      (bit_and offset 0xFC)

module _ (config : ℕ → ℕ) where
  unfoldable pub pci_read_dword : (bus dev func offset : ℕ) → ℕ
  pci_read_dword bus dev func offset = u32 (config (config_address bus dev func offset))

  unfoldable pub pci_read_word : (bus dev func offset : ℕ) → ℕ
  unfolding pci_read_dword
  pci_read_word bus dev func offset =
      u16 (bit_and (shr (pci_read_dword bus dev func offset) (bit_and offset 2 * 8)) 0xFFFF)

  -- A device answers if its vendor is neither 0xFFFF nor 0.
  abbrev pub answers : (bus dev : ℕ) → Bool
  answers bus dev =
      not ((pci_read_word bus dev 0 0x00 == 0xFFFF) || (pci_read_word bus dev 0 0x00 == 0))

  unfoldable pub read_device : (bus dev : ℕ) → PciDevice
  unfolding pci_read_word pci_read_dword
  read_device bus dev =
      let class_rev = pci_read_dword bus dev 0 0x08 in
      record {
        bus = u8 bus;
        device = dev;
        function = 0;
        vendor_id = pci_read_word bus dev 0 0x00;
        device_id = pci_read_word bus dev 0 0x02;
        class_code = u8 (bit_and (shr class_rev 24) 0xFF);
        subclass = u8 (bit_and (shr class_rev 16) 0xFF);
        prog_if = u8 (bit_and (shr class_rev 8) 0xFF);
        bar0 = pci_read_dword bus dev 0 0x10;
      }

  -- The body of the inner loop: the table grows while it has fewer than 64 entries.
  abbrev pub visit : (bus dev : ℕ) → List PciDevice → List PciDevice
  visit bus dev table =
      if answers bus dev && ltb (length table) 64
      then table ++ (read_device bus dev ∷ [])
      else table

  unfoldable pub dev_loop : (left bus dev : ℕ) → List PciDevice → List PciDevice
  unfolding read_device
  dev_loop zero bus dev table = table
  dev_loop (suc left) bus dev table = dev_loop left bus (dev + 1) (visit bus dev table)

  unfoldable pub bus_loop : (left bus : ℕ) → List PciDevice → List PciDevice
  unfolding dev_loop
  bus_loop zero bus table = table
  bus_loop (suc left) bus table = bus_loop left (bus + 1) (dev_loop 32 bus 0 table)

  -- The table that `pci_init` fills; its length is `s_pci_device_count`.
  unfoldable pub pci_init : List PciDevice
  unfolding bus_loop
  pci_init = bus_loop 256 0 []

  -- All devices that answer, in the order of bus and device.
  unfoldable pub devices_from : (left bus dev : ℕ) → List PciDevice
  devices_from zero bus dev = []
  devices_from (suc left) bus dev =
      if answers bus dev
      then read_device bus dev ∷ devices_from left bus (dev + 1)
      else devices_from left bus (dev + 1)

  unfoldable pub all_devices : (left bus : ℕ) → List PciDevice
  all_devices zero bus = []
  all_devices (suc left) bus = devices_from 32 bus 0 ++ all_devices left (bus + 1)

unfoldable pub pci_find_device : List PciDevice → (vendor_id device_id : ℕ) → Option PciDevice
pci_find_device [] v d = none
pci_find_device (p ∷ ps) v d =
    if (p.vendor_id == v) && (p.device_id == d) then some p else pci_find_device ps v d

unfoldable pub pci_find_class : List PciDevice → (class_code subclass : ℕ) → Option PciDevice
pci_find_class [] c s = none
pci_find_class (p ∷ ps) c s =
    if (p.class_code == c) && (p.subclass == s) then some p else pci_find_class ps c s

take-nil : (n : ℕ) → take {A = PciDevice} n [] ≡ []
take-nil zero = refl
take-nil (suc n) = refl

-- Adding one device at the end, while there is room, to a table that holds the first of a list.
take-snoc :
    (n : ℕ) (xs : List PciDevice) (p : PciDevice)
    → (if ltb (length (take n xs)) n then take n xs ++ (p ∷ []) else take n xs)
      ≡ take n (xs ++ (p ∷ []))
take-snoc zero xs p = ground arith
take-snoc (suc n) [] p = let room : ltb 0 (suc n) ≡ true = ground arith in rw (room, take-nil)
take-snoc (suc n) (x ∷ xs) p = ground (arith, take-snoc n xs p)

module _ (config : ℕ → ℕ) where
  dev_loop-take :
      (left bus dev : ℕ) (seen : List PciDevice)
      → dev_loop config left bus dev (take 64 seen)
        ≡ take 64 (seen ++ devices_from config left bus dev)
  unfolding dev_loop devices_from
  dev_loop-take zero bus dev seen = rw append-nil
  dev_loop-take (suc left) bus dev seen = elim (Bool-cases (answers config bus dev)) [
    | inl there ↦
        rw (there, take-snoc 64 seen (read_device config bus dev))
          (dev_loop-take left bus (dev + 1) (seen ++ (read_device config bus dev ∷ []))
            ∙ rw append_assoc)
    | inr empty ↦ rw empty (dev_loop-take left bus (dev + 1) seen)
  ]

  bus_loop-take :
      (left bus : ℕ) (seen : List PciDevice)
      → bus_loop config left bus (take 64 seen) ≡ take 64 (seen ++ all_devices config left bus)
  unfolding bus_loop all_devices
  bus_loop-take zero bus seen = rw append-nil
  bus_loop-take (suc left) bus seen =
      rw (dev_loop-take 32 bus 0 seen)
        (bus_loop-take left (bus + 1) (seen ++ devices_from config 32 bus 0) ∙ rw append_assoc)

  -- `pci_init` lists the first 64 of the devices that answer at function 0, in the order of their
  -- bus and device numbers, over all 256 buses of 32 devices.
  pub pci_init-take : pci_init config ≡ take 64 (all_devices config 256 0)
  unfolding pci_init
  pci_init-take = bus_loop-take 256 0 []
