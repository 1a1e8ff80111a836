-- ===== src/Common/Hardware.antt =====
-- internal/common/common.go: the hardware configuration, its defaults, its normal form. The `int`
-- fields are integers; the text of an error is the constructor that names it.
pub mod Validate
pub mod Normal
pub mod Accepted
use ubuntu_vm_template_build.Base.{
  ℕ, ℤ, pos, Bool, true, false, ◌||◌, List, [], ◌∷◌, ◌==◌, if◌then◌else◌, is_empty, codes,
}
use ubuntu_vm_template_build.Text.{Text, trim_space, fold_space, equal, replace_all, join, fields}

pub record QemuHardwareConfig : Type 0 where
  pub cpu_model : Text
  pub disk_interface : Text
  pub iso_interface : Text

pub record VCenterHardwareConfig : Type 0 where
  pub scsi_controller : Text
  pub network_adapter : Text
  pub network : Text
  pub disk_provisioning : Text
  pub compatibility : Text
  pub guest_os_id : Text
  pub reserve_all_guest_memory : Bool
  pub output_type : Text

pub record ProxmoxHardwareConfig : Type 0 where
  pub bridge : Text
  pub network_adapter : Text
  pub scsi_controller : Text
  pub disk_interface : Text
  pub disk_format : Text
  pub disk_io_thread : Bool
  pub cpu_type : Text
  pub machine : Text
  pub ostype : Text
  pub efi_type : Text
  pub pre_enrolled_keys : Bool
  pub output_type : Text

pub record HardwareConfig : Type 0 where
  pub boot_firmware : Text
  pub disk_size : Text
  pub vcpu : ℤ
  pub memory_mb : ℤ
  pub qemu : QemuHardwareConfig
  pub vcenter : VCenterHardwareConfig
  pub proxmox : ProxmoxHardwareConfig

-- `DefaultHardwareConfig`
unfoldable pub default_hardware_config : HardwareConfig
default_hardware_config = record {
  boot_firmware = codes "uefi";
  disk_size = [];
  vcpu = pos 2;
  memory_mb = pos 2048;
  qemu = record {
    cpu_model = codes "host";
    disk_interface = codes "virtio";
    iso_interface = codes "virtio";
  };
  vcenter = record {
    scsi_controller = codes "pvscsi";
    network_adapter = codes "vmxnet3";
    network = [];
    disk_provisioning = codes "thick_provision_lazy_zeroed";
    compatibility = [];
    guest_os_id = codes "ubuntu64Guest";
    reserve_all_guest_memory = false;
    output_type = codes "template";
  };
  proxmox = record {
    bridge = [];
    network_adapter = codes "virtio";
    scsi_controller = codes "virtio-scsi-pci";
    disk_interface = codes "scsi";
    disk_format = codes "raw";
    disk_io_thread = false;
    cpu_type = codes "host";
    machine = codes "q35";
    ostype = codes "l26";
    efi_type = codes "4m";
    pre_enrolled_keys = false;
    output_type = codes "template";
  };
}

abbrev or_default : Text → Text → Text
or_default value fallback = if is_empty value then fallback else value

unfoldable pub normalize_boot_firmware : Text → Text
normalize_boot_firmware firmware = or_default (fold_space firmware) (codes "uefi")

-- `-` becomes `_`, and so does what separates words.
unfoldable pub underscored : Text → Text
underscored value = join (fields (replace_all (fold_space value) b'-' (codes "_"))) (codes "_")

-- The `switch` behind it.
unfoldable pub provisioning_name : Text → Text
provisioning_name value =
    if is_empty value
      || equal value (codes "thick")
      || equal value (codes "thick_lazy_zeroed")
      || equal value (codes "thick_provisioned_lazy_zeroed")
    then codes "thick_provision_lazy_zeroed"
    else if equal value (codes "eager_zeroed")
        || equal value (codes "thick_eager_zeroed")
        || equal value (codes "thick_provisioned_eager_zeroed")
    then codes "thick_provision_eager_zeroed"
    else value

unfoldable pub normalize_vcenter_disk_provisioning : Text → Text
normalize_vcenter_disk_provisioning value = provisioning_name (underscored value)

unfoldable pub normalize_vcenter_output_type : Text → Text
normalize_vcenter_output_type value = or_default (underscored value) (codes "template")

unfoldable pub normalize_proxmox_output_type : Text → Text
normalize_proxmox_output_type value = or_default (underscored value) (codes "template")

unfoldable pub normalize : HardwareConfig → HardwareConfig
normalize c = record {
  boot_firmware = normalize_boot_firmware c.boot_firmware;
  disk_size = trim_space c.disk_size;
  vcpu = c.vcpu;
  memory_mb = c.memory_mb;
  qemu = record {
    cpu_model = trim_space c.qemu.cpu_model;
    disk_interface = fold_space c.qemu.disk_interface;
    iso_interface = fold_space c.qemu.iso_interface;
  };
  vcenter = record {
    scsi_controller = fold_space c.vcenter.scsi_controller;
    network_adapter = fold_space c.vcenter.network_adapter;
    network = trim_space c.vcenter.network;
    disk_provisioning = normalize_vcenter_disk_provisioning c.vcenter.disk_provisioning;
    compatibility = fold_space c.vcenter.compatibility;
    guest_os_id = trim_space c.vcenter.guest_os_id;
    reserve_all_guest_memory = c.vcenter.reserve_all_guest_memory;
    output_type = normalize_vcenter_output_type c.vcenter.output_type;
  };
  proxmox = record {
    bridge = trim_space c.proxmox.bridge;
    network_adapter = fold_space c.proxmox.network_adapter;
    scsi_controller = fold_space c.proxmox.scsi_controller;
    disk_interface = fold_space c.proxmox.disk_interface;
    disk_format = fold_space c.proxmox.disk_format;
    disk_io_thread = c.proxmox.disk_io_thread;
    cpu_type = trim_space c.proxmox.cpu_type;
    machine = trim_space c.proxmox.machine;
    ostype = trim_space c.proxmox.ostype;
    efi_type = fold_space c.proxmox.efi_type;
    pre_enrolled_keys = c.proxmox.pre_enrolled_keys;
    output_type = normalize_proxmox_output_type c.proxmox.output_type;
  };
}
