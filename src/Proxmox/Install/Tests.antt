-- ===== src/Proxmox/Install/Tests.antt =====
-- internal/backend/proxmox/proxmox.go: builds on small servers, and the theorems about them.
use ubuntu_vm_template_build.Base.{pos, refl, inl, Bool, true, false, [], none, codes, arith}
use ubuntu_vm_template_build.Text.{Text}
use ubuntu_vm_template_build.Common.Hardware.{default_hardware_config}
use ubuntu_vm_template_build.Proxmox.Options.{OptionsConfig}
use ubuntu_vm_template_build.Proxmox.CloudInit.{CloudInitOptionsConfig}
use ubuntu_vm_template_build.Proxmox.Config.{Config, ConnectionConfig, normalize_connection_config}
use ubuntu_vm_template_build.Proxmox.Client.{Client, replied, StorageStatus, number, boolean}
use ubuntu_vm_template_build.Proxmox.Install.{Progress, new_build_state}
use ubuntu_vm_template_build.Proxmox.Install.Machine.{wait_for_power_off}
use ubuntu_vm_template_build.Proxmox.Install.Run.{install_with_client, start}
use ubuntu_vm_template_build.Proxmox.Install.Safety.{AllOwn}
use ubuntu_vm_template_build.Proxmox.Install.Safety.Whole.{install_with_client-AllOwn}
use ubuntu_vm_template_build.Proxmox.Install.Polling.{Ended, wait_for_power_off-Ended}
use ubuntu_vm_template_build.Proxmox.Install.Run.{create_vm}

abbrev task : Text
task = codes "UPID:1"

abbrev storage : StorageStatus
storage = record {
  active = number (pos 1) 0;
  enabled = boolean true;
  content = codes "iso,images";
  avail = record { value = pos 100000000000; is_set = true };
}

-- A server that does what it is asked, with an operator who waits or does not.
abbrev server : Bool → Client
server gives_up = record {
  create_installer_iso = λ h. replied (codes "/tmp/installer.iso");
  stat = λ h path. replied (true, 2000000000);
  validate_node = λ h node. replied tt;
  storage_status = λ h node name. replied storage;
  list_vms = λ h node. replied [];
  next_id = λ h. replied (pos 100);
  storage_volume_exists = λ h node name content volume. replied false;
  upload_file = λ h node name upload. replied [];
  delete_volume = λ h node name volume. replied task;
  create_vm = λ h node values. replied task;
  start_vm = λ h node vmid. replied task;
  current_vm_status = λ h node vmid. replied (codes "stopped");
  update_vm_config = λ h node vmid values. replied task;
  template_vm = λ h node vmid. replied task;
  stop_vm = λ h node vmid. replied task;
  delete_vm = λ h node vmid. replied task;
  wait_task = λ h node name. replied tt;
  interrupted = λ h. gives_up;
}

abbrev connection : ConnectionConfig
connection = record {
  host = codes "pve";
  token_id = codes "root@pam!t";
  token_secret = codes "s";
  insecure = false;
  node = codes "pve";
  iso_storage = codes "local";
  disk_storage = codes "local";
  vmid = pos 0;
  bridge = codes "vmbr0";
  name = codes "jammy";
}

abbrev no_options : OptionsConfig
no_options = record {
  enabled = false;
  start_at_boot = none;
  startup = record { order = none; up_delay_seconds = none; down_delay_seconds = none };
  qemu_guest_agent = record {
    enabled = none;
    freeze_fs_on_backup = none;
    fstrim_cloned_disks = none;
    type = [];
  };
  protection = none;
  tablet = none;
  acpi = none;
  kvm = none;
  freeze_cpu_at_startup = none;
  local_time = none;
  rtc_start_date = [];
  hotplug = record {
    network = none;
    disk = none;
    usb = none;
    memory = none;
    cpu = none;
    cloudinit = none;
  };
  smbios = record {
    values_are_base64 = none;
    uuid = [];
    manufacturer = [];
    product = [];
    version = [];
    serial = [];
    sku = [];
    family = [];
  };
  spice_enhancements = record { folder_sharing = none; video_streaming = [] };
  vm_state_storage = [];
  tags = [];
  description = [];
}

abbrev no_cloud_init : CloudInitOptionsConfig
no_cloud_init = record {
  enabled = false;
  type = [];
  upgrade = none;
  user = [];
  password = [];
  ssh_keys = [];
  dns = record { nameservers = []; search_domains = [] };
  network = [];
  custom = record { user = []; network = []; meta = []; vendor = [] };
}

abbrev config : Config
config = record {
  disk_size = codes "10G";
  display_name = codes "Ubuntu 22.04";
  hardware = record default_hardware_config { disk_size = codes "10G" };
  options = no_options;
  cloud_init_options = no_cloud_init;
  proxmox = connection;
}

install_with_client-AllOwn_example :
    AllOwn
      (normalize_connection_config connection (codes "Ubuntu 22.04"))
      (install_with_client (server false) config (codes "20260101T000000Z") 3).1.history
install_with_client-AllOwn_example =
    install_with_client-AllOwn (server false) config (codes "20260101T000000Z") 3

wait_for_power_off-Ended_example :
    Ended
      (server false)
      (codes "pve")
      (pos 100)
      (wait_for_power_off (server false) (codes "pve") (pos 100) 1 start)
wait_for_power_off-Ended_example =
    wait_for_power_off-Ended (server false) (codes "pve") (pos 100) 0 0 start (λ h late. inl refl)
      (omega arith)

abbrev halfway : Progress
halfway = record {
  history = [];
  build = record new_build_state {
    vmid = pos 100;
    vm_created = true;
    temp_iso_volume_id = codes "local:iso/a.iso";
    temp_iso_storage = codes "local";
  };
}
