-- ===== src/Pci/Scan.antt =====
-- The scan of pci_init of src/drivers/pci.c against a list of the devices that are there.
use hz_os.Base.{
  ℕ, zero, suc, ◌≡◌, List, [], ◌∷◌, ◌++◌, append-nil, append_assoc, if◌then◌else◌, take,
  take-append_room, ap, sym, ◌∙◌, Bool-cases, inl, inr, ◌+◌, ◌*◌, ◌/◌, ◌%◌, ◌^◌, ◌==◌, leb, Bool,
  ap₂, refl, arith,
}
use hz_os.Pci.{
  Config, PciDevice, max_pci_devices, read_device, add_device, is_absent, is_multifunction,
  check_functions, pci_check_device, scan_devices, scan_buses, pci_init, pci_config_read_word,
  pci_config_read_byte, pci_config_read_dword, config_address,
}

-- The functions that are there from `func` on, as many as the first number says.
unfoldable pub functions : Config → ℕ → ℕ → ℕ → ℕ → List PciDevice
functions config bus device zero func = []
functions config bus device (suc n) func =
    let d = read_device config bus device func in
    let rest = functions config bus device n (suc func) in if is_absent d then rest else d ∷ rest

-- A device has no function if it has no function 0, and the other seven only if it says so.
unfoldable pub device_functions : Config → ℕ → ℕ → List PciDevice
device_functions config bus device =
    let d = read_device config bus device 0 in
    let others = functions config bus device 7 1 in
    if is_absent d then [] else d ∷ (if is_multifunction d then others else [])

unfoldable pub bus_functions : Config → ℕ → ℕ → ℕ → List PciDevice
bus_functions config bus zero device = []
bus_functions config bus (suc n) device =
    device_functions config bus device ++ bus_functions config bus n (suc device)

unfoldable pub all_functions : Config → ℕ → ℕ → List PciDevice
all_functions config zero bus = []
all_functions config (suc n) bus = bus_functions config bus 32 0 ++ all_functions config n (suc bus)

-- The first devices, up to the size of the table.
abbrev pub held : List PciDevice → List PciDevice
held ds = take max_pci_devices ds

-- A device is added where there is room for it.
add_device-held :
    (ds : List PciDevice) (d : PciDevice) → add_device (held ds) d ≡ held (ds ++ (d ∷ []))
add_device-held ds d = take-append_room max_pci_devices ds d

module _ (config : Config) where
  check-functions :
      (bus device n func : ℕ) (ds : List PciDevice)
      → check_functions config bus device n func (held ds)
        ≡ held (ds ++ functions config bus device n func)
  unfolding check_functions functions
  check-functions bus device zero func ds = ap held (sym (append-nil ds))
  check-functions bus device (suc n) func ds =
      let d = read_device config bus device func in
      elim (Bool-cases (is_absent d)) [
        | inl e ↦ rw e (check-functions bus device n (suc func) ds)
        | inr e ↦ rw e (
            ap (check_functions config bus device n (suc func)) (add_device-held ds d)
            ∙ check-functions bus device n (suc func) (ds ++ (d ∷ []))
            ∙ ap held (append_assoc ds (d ∷ []) (functions config bus device n (suc func))))
      ]

  check_device-held :
      (bus device : ℕ) (ds : List PciDevice)
      → pci_check_device config bus device (held ds)
        ≡ held (ds ++ device_functions config bus device)
  unfolding pci_check_device device_functions
  check_device-held bus device ds =
      let d = read_device config bus device 0 in
      elim (Bool-cases (is_absent d)) [
        | inl e ↦ rw e (ap held (sym (append-nil ds)))
        | inr e ↦ elim (Bool-cases (is_multifunction d)) [
          | inl f ↦
              rw (e, f)
                (ap (check_functions config bus device 7 1) (add_device-held ds d)
                  ∙ check-functions bus device 7 1 (ds ++ (d ∷ []))
                  ∙ ap held (append_assoc ds (d ∷ []) (functions config bus device 7 1)))
          | inr f ↦ rw (e, f) (add_device-held ds d)
        ]
      ]

  scan_devices-held :
      (bus n device : ℕ) (ds : List PciDevice)
      → scan_devices config bus n device (held ds) ≡ held (ds ++ bus_functions config bus n device)
  unfolding scan_devices bus_functions
  scan_devices-held bus zero device ds = ap held (sym (append-nil ds))
  scan_devices-held bus (suc n) device ds =
      ap (scan_devices config bus n (suc device)) (check_device-held bus device ds)
      ∙ scan_devices-held bus n (suc device) (ds ++ device_functions config bus device)
      ∙ ap held (
          append_assoc ds (device_functions config bus device)
            (bus_functions config bus n (suc device)))

  scan_buses-held :
      (n bus : ℕ) (ds : List PciDevice)
      → scan_buses config n bus (held ds) ≡ held (ds ++ all_functions config n bus)
  unfolding scan_buses all_functions
  scan_buses-held zero bus ds = ap held (sym (append-nil ds))
  scan_buses-held (suc n) bus ds =
      ap (scan_buses config n (suc bus)) (scan_devices-held bus 32 0 ds)
      ∙ scan_buses-held n (suc bus) (ds ++ bus_functions config bus 32 0)
      ∙ ap held (append_assoc ds (bus_functions config bus 32 0) (all_functions config n (suc bus)))

-- The double word with the number `reg` of a function: its address has bit 31 set, the bus from bit
-- 16 on, the device from bit 11, the function from bit 8 and the number from bit 2.
abbrev pub dword : Config → ℕ → ℕ → ℕ → ℕ → ℕ
dword config bus device func reg =
    config (bus * 65536 + device * 2048 + func * 256 + reg * 4 + 2 ^ 31)

-- What the header of a function says, as the PCI specification lays it out.
abbrev pub described : Config → ℕ → ℕ → ℕ → PciDevice
described config bus device func = record {
  bus = bus;
  device = device;
  function = func;
  vendor_id = dword config bus device func 0 % 65536;
  device_id = dword config bus device func 0 / 65536 % 65536;
  class_code = dword config bus device func 2 / 2 ^ 24 % 256;
  subclass = dword config bus device func 2 / 2 ^ 16 % 256;
  prog_if = dword config bus device func 2 / 2 ^ 8 % 256;
  header_type = dword config bus device func 3 / 2 ^ 16 % 256;
  bar0 = dword config bus device func 4;
  bar1 = dword config bus device func 5;
  bar2 = dword config bus device func 6;
  bar3 = dword config bus device func 7;
  bar4 = dword config bus device func 8;
  bar5 = dword config bus device func 9;
}

-- No function answers with the vendor 0xFFFF; the top bit of the header type says that a device has
-- several functions.
abbrev pub silent : Config → ℕ → ℕ → ℕ → Bool
silent config bus device func = dword config bus device func 0 % 65536 == 65535

abbrev pub has_several : Config → ℕ → ℕ → Bool
has_several config bus device = leb 128 (dword config bus device 0 3 / 2 ^ 16 % 256)

-- The functions that answer, from `func` on.
unfoldable pub answering : Config → ℕ → ℕ → ℕ → ℕ → List PciDevice
answering config bus device zero func = []
answering config bus device (suc n) func =
    let rest = answering config bus device n (suc func) in
    if silent config bus device func then rest else described config bus device func ∷ rest

unfoldable pub answering_device : Config → ℕ → ℕ → List PciDevice
answering_device config bus device =
    let others = answering config bus device 7 1 in
    if silent config bus device 0
    then []
    else described config bus device 0 ∷ (if has_several config bus device then others else [])

unfoldable pub answering_bus : Config → ℕ → ℕ → ℕ → List PciDevice
answering_bus config bus zero device = []
answering_bus config bus (suc n) device =
    answering_device config bus device ++ answering_bus config bus n (suc device)

unfoldable pub all_answering : Config → ℕ → ℕ → List PciDevice
all_answering config zero bus = []
all_answering config (suc n) bus = answering_bus config bus 32 0 ++ all_answering config n (suc bus)

top_bit : (v : ℕ) → (v / 2 ^ 16 % 256 / 128 % 2 == 1) ≡ leb 128 (v / 2 ^ 16 % 256)
top_bit v = ground arith

module _ (config : Config) where
  functions-answering :
      (bus device n func : ℕ)
      → functions config bus device n func ≡ answering config bus device n func
  unfolding functions answering read_device pci_config_read_word pci_config_read_byte
      pci_config_read_dword config_address
  functions-answering bus device zero func = refl
  functions-answering bus device (suc n) func =
      ap
        (λ (rest : List PciDevice).
          if silent config bus device func then rest else described config bus device func ∷ rest)
        (functions-answering bus device n (suc func))

  device-answering :
      (bus device : ℕ) → device_functions config bus device ≡ answering_device config bus device
  unfolding device_functions answering_device read_device pci_config_read_word pci_config_read_byte
      pci_config_read_dword config_address
  device-answering bus device =
      ap₂
        (λ (several : Bool) (others : List PciDevice).
          if silent config bus device 0
          then []
          else described config bus device 0 ∷ (if several then others else []))
        (top_bit (dword config bus device 0 3)) (functions-answering bus device 7 1)

  bus-answering :
      (bus n device : ℕ) → bus_functions config bus n device ≡ answering_bus config bus n device
  unfolding bus_functions answering_bus
  bus-answering bus zero device = refl
  bus-answering bus (suc n) device =
      ap₂ (λ (xs ys : List PciDevice). xs ++ ys) (device-answering bus device)
        (bus-answering bus n (suc device))

  all-answering : (n bus : ℕ) → all_functions config n bus ≡ all_answering config n bus
  unfolding all_functions all_answering
  all-answering zero bus = refl
  all-answering (suc n) bus =
      ap₂ (λ (xs ys : List PciDevice). xs ++ ys) (bus-answering bus 32 0)
        (all-answering n (suc bus))

-- pci_init lists exactly the functions that answer on the buses 0 to 7, in the order of bus, device
-- and function, up to the 256 that its table holds: function 0 of every device that has one, and
-- the functions 1 to 7 where function 0 says that the device has several. Each entry holds what
-- the function's header says, field by field.
pub pci_init-functions : (config : Config) → pci_init config ≡ take 256 (all_answering config 8 0)
unfolding pci_init
pci_init-functions config = scan_buses-held config 8 0 [] ∙ ap held (all-answering config 8 0)
