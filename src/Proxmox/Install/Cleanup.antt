-- ===== src/Proxmox/Install/Cleanup.antt =====
-- internal/backend/proxmox/proxmox.go: what the cleanup of an interrupted build attempts.
use ubuntu_vm_template_build.Base.{◌≡◌}
use ubuntu_vm_template_build.Text.{Text}
use ubuntu_vm_template_build.Proxmox.Config.{ConnectionConfig}
use ubuntu_vm_template_build.Proxmox.Client.{Client}
use ubuntu_vm_template_build.Proxmox.Install.{Progress}
use ubuntu_vm_template_build.Proxmox.Install.Iso.{iso_storage_of}
use ubuntu_vm_template_build.Proxmox.Install.Triple.{Assertion, Triple}

module _ (cfg : ConnectionConfig) (client : Client) where
  -- What the ISO's deletion reads of the state.
  abbrev SameIso : Progress → Assertion
  SameIso s s' =
      (s'.build.temp_iso_volume_id ≡ s.build.temp_iso_volume_id)
      × ((s'.build.temp_iso_deleted ≡ s.build.temp_iso_deleted)
          × (iso_storage_of cfg s'.build ≡ iso_storage_of cfg s.build))
