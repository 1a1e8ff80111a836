-- ===== src/Proxmox/Storage/Tests.antt =====
-- internal/backend/proxmox/proxmox.go: the storage check on small statuses.
use ubuntu_vm_template_build.Base.{ℕ, pos, true, [], ◌∷◌, codes}
use ubuntu_vm_template_build.Proxmox.Client.{StorageStatus, number, boolean}
use ubuntu_vm_template_build.Proxmox.Storage.{Requirement}

abbrev local : StorageStatus
local = record {
  active = number (pos 1) 0;
  enabled = boolean true;
  content = codes "iso, images";
  avail = record { value = pos 5000; is_set = true };
}

abbrev of_bytes : ℕ → Requirement
of_bytes n = record {
  storage = codes "local";
  roles = codes "ISO" ∷ codes "disk" ∷ [];
  required_bytes = n;
  content_types = codes "iso" ∷ codes "images" ∷ [];
}
