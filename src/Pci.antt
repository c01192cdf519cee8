-- ===== src/Pci.antt =====
-- The PCI bus of src/drivers/pci.c. What the configuration space answers at an address is a function.
pub mod Words
pub mod Scan
mod Tests
use hz_os.Base.{
  ℕ, zero, suc, ◌+◌, ◌-◌, ◌*◌, ◌/◌, ◌%◌, ◌^◌, Bool, true, false, ◌&&◌, List, [], ◌∷◌, ◌++◌, Option,
  none, some, get_elem?, if◌then◌else◌, ltb, leb, ◌==◌, length,
}
use hz_os.Base.Int.{ℤ, pos, negsuc}

abbrev pub max_pci_devices : ℕ
max_pci_devices = 256

-- The double word at each address that is written to PCI_CONFIG_ADDRESS.
abbrev pub Config : Type 0
Config = ℕ → ℕ

pub record PciDevice : Type 0 where
  pub bus : ℕ
  pub device : ℕ
  pub function : ℕ
  pub vendor_id : ℕ
  pub device_id : ℕ
  pub class_code : ℕ
  pub subclass : ℕ
  pub prog_if : ℕ
  pub header_type : ℕ
  pub bar0 : ℕ
  pub bar1 : ℕ
  pub bar2 : ℕ
  pub bar3 : ℕ
  pub bar4 : ℕ
  pub bar5 : ℕ

-- The four parts do not meet, for a device below 32 and a function below 8.
unfoldable pub config_address : ℕ → ℕ → ℕ → ℕ → ℕ
config_address bus device func offset =
    bus * 65536 + device * 2048 + func * 256 + offset / 4 * 4 + 2 ^ 31

unfoldable pub pci_config_read_dword : Config → ℕ → ℕ → ℕ → ℕ → ℕ
pci_config_read_dword config bus device func offset = config (config_address bus device func offset)

-- `offset & 2` is 0 or 2.
abbrev pub high_half : ℕ → Bool
high_half offset = offset / 2 % 2 == 1

abbrev pub word_of : ℕ → ℕ → ℕ
word_of dword offset = if high_half offset then dword / 65536 % 65536 else dword % 65536

unfoldable pub pci_config_read_word : Config → ℕ → ℕ → ℕ → ℕ → ℕ
pci_config_read_word config bus device func offset =
    word_of (config (config_address bus device func offset)) offset

abbrev pub byte_of : ℕ → ℕ → ℕ
byte_of dword offset = dword / 2 ^ (offset % 4 * 8) % 256

unfoldable pub pci_config_read_byte : Config → ℕ → ℕ → ℕ → ℕ → ℕ
pci_config_read_byte config bus device func offset =
    byte_of (config (config_address bus device func offset)) offset

abbrev pub new_val : ℕ → ℕ → ℕ → ℕ
new_val old_val offset value =
    if high_half offset
    then old_val % 65536 + value % 65536 * 65536
    else old_val / 65536 % 65536 * 65536 + value % 65536

-- The address and the double word that are written.
unfoldable pub pci_config_write_word : Config → ℕ → ℕ → ℕ → ℕ → ℕ → ℕ × ℕ
pci_config_write_word config bus device func offset value =
    let address = config_address bus device func offset in
    (address, new_val (config address) offset value)

unfoldable pub pci_config_write_dword : ℕ → ℕ → ℕ → ℕ → ℕ → ℕ × ℕ
pci_config_write_dword bus device func offset value = (config_address bus device func offset, value)

unfoldable pub read_device : Config → ℕ → ℕ → ℕ → PciDevice
read_device config b d f = record {
  bus = b;
  device = d;
  function = f;
  vendor_id = pci_config_read_word config b d f 0x00;
  device_id = pci_config_read_word config b d f 0x02;
  class_code = pci_config_read_byte config b d f 0x0B;
  subclass = pci_config_read_byte config b d f 0x0A;
  prog_if = pci_config_read_byte config b d f 0x09;
  header_type = pci_config_read_byte config b d f 0x0E;
  bar0 = pci_config_read_dword config b d f 0x10;
  bar1 = pci_config_read_dword config b d f 0x14;
  bar2 = pci_config_read_dword config b d f 0x18;
  bar3 = pci_config_read_dword config b d f 0x1C;
  bar4 = pci_config_read_dword config b d f 0x20;
  bar5 = pci_config_read_dword config b d f 0x24;
}

abbrev pub add_device : List PciDevice → PciDevice → List PciDevice
add_device table d = if ltb (length table) max_pci_devices then table ++ (d ∷ []) else table

abbrev pub is_absent : PciDevice → Bool
is_absent d = d.vendor_id == 0xFFFF

-- The functions from `func` on, as many as the first number says.
unfoldable pub check_functions : Config → ℕ → ℕ → ℕ → ℕ → List PciDevice → List PciDevice
check_functions config bus device zero func table = table
check_functions config bus device (suc n) func table =
    let d = read_device config bus device func in
    check_functions config bus device n (suc func)
      (if is_absent d then table else add_device table d)

abbrev pub is_multifunction : PciDevice → Bool
is_multifunction d = d.header_type / 128 % 2 == 1

unfoldable pub pci_check_device : Config → ℕ → ℕ → List PciDevice → List PciDevice
pci_check_device config bus device table =
    let d = read_device config bus device 0 in
    let more = check_functions config bus device 7 1 (add_device table d) in
    if is_absent d then table else if is_multifunction d then more else add_device table d

unfoldable pub scan_devices : Config → ℕ → ℕ → ℕ → List PciDevice → List PciDevice
scan_devices config bus zero device table = table
scan_devices config bus (suc n) device table =
    scan_devices config bus n (suc device) (pci_check_device config bus device table)

abbrev pub pci_scan_bus : Config → ℕ → List PciDevice → List PciDevice
pci_scan_bus config bus table = scan_devices config bus 32 0 table

unfoldable pub scan_buses : Config → ℕ → ℕ → List PciDevice → List PciDevice
scan_buses config zero bus table = table
scan_buses config (suc n) bus table = scan_buses config n (suc bus) (pci_scan_bus config bus table)

-- The devices below `pci_device_count`.
unfoldable pub pci_init : Config → List PciDevice
pci_init config = scan_buses config 8 0 []

abbrev pub pci_get_device_count : List PciDevice → ℕ
pci_get_device_count table = length table

unfoldable pub pci_get_device : List PciDevice → ℤ → Option PciDevice
pci_get_device table (pos i) = get_elem? table i
pci_get_device table (negsuc i) = none

unfoldable pub pci_find_device : List PciDevice → ℕ → ℕ → Option PciDevice
pci_find_device [] vendor_id device_id = none
pci_find_device (d ∷ ds) vendor_id device_id =
    let rest = pci_find_device ds vendor_id device_id in
    if (d.vendor_id == vendor_id) && (d.device_id == device_id) then some d else rest
