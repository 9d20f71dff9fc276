-- ===== src/Compatibility/Hardware.antt =====
-- The parts of a HardwareSnapshot of macloader/domain/hardware.py that the engine reads.
use libre_core_mac_loader.Prelude.{ℕ, String, ◌<>◌, Bool, Option, List}
use libre_core_mac_loader.Compatibility.Matcher.{Snapshot}

pub record PciDevice : Type 0 where
  pub vendor_id : String
  pub device_id : String
  pub device_class : Option String

pub record UsbDevice : Type 0 where
  pub vendor_id : String
  pub product_id : String

-- The two `canonical_id`
unfoldable pub pci_id : PciDevice → String
pci_id d = d.vendor_id <> ":" <> d.device_id

unfoldable pub usb_id : UsbDevice → String
usb_id d = d.vendor_id <> ":" <> d.product_id

pub record CpuInfo : Type 0 where
  pub model_name : String
  pub vendor : Option String
  pub cores : ℕ
  pub threads : ℕ
  pub generation : Option String

pub record GpuInfo : Type 0 where
  pub name : String
  pub pci : Option PciDevice

pub record AudioInfo : Type 0 where
  pub name : String
  pub codec_name : Option String
  pub codec_vendor_id : Option String
  pub codec_device_id : Option String
  pub pci : Option PciDevice

pub record NetworkInfo : Type 0 where
  pub name : String
  pub pci : Option PciDevice
  pub usb : Option UsbDevice

pub record StorageInfo : Type 0 where
  pub model : String
  pub kind : String
  pub pci : Option PciDevice

pub record InputDeviceInfo : Type 0 where
  pub name : String
  pub bus : String
  pub kind : String

-- The snapshot; `inventory_status` has the categories that the provider lists, with whether the
-- value is the Boolean True.
pub record HardwareSnapshot : Type 0 where
  pub snapshot_id : String
  pub machine : Snapshot
  pub cpu : Option CpuInfo
  pub igpu : Option GpuInfo
  pub dgpus : List GpuInfo
  pub audio : List AudioInfo
  pub ethernet : List NetworkInfo
  pub wifi : List NetworkInfo
  pub bluetooth : List NetworkInfo
  pub storage : List StorageInfo
  pub input_devices : List InputDeviceInfo
  pub inventory_status : List (String × Bool)
