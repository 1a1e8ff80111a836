-- ===== src/Proxmox/Install/Prepare.antt =====
-- internal/backend/proxmox/proxmox.go: the checks before anything is changed on the server.
use ubuntu_vm_template_build.Base.{
  ℕ, ◌+◌, ◌&&◌, List, [], ◌∷◌, Option, none, some, if◌then◌else◌, is_positive, same_int,
}
use ubuntu_vm_template_build.Text.{Text, trim_space, to_lower, equal}
use ubuntu_vm_template_build.Proxmox.Disk.{
  Allocation, allocated, bad_size, not_positive, too_large, allocation_bytes, efi_disk_bytes,
}
use ubuntu_vm_template_build.Proxmox.Config.{Config, ConnectionConfig, validate_connection_fields}
use ubuntu_vm_template_build.Proxmox.Vm.{chosen_disk_size}
use ubuntu_vm_template_build.Proxmox.Storage.{
  Requirement, build_requirements, sort_requirements, validate_storage_status,
}
use ubuntu_vm_template_build.Proxmox.Client.{
  Client, VmInfo, made_iso, stat_file, validated_node, got_storage_status, listed_vms,
}
use ubuntu_vm_template_build.Proxmox.Install.{
  Step, InstallError, done, fail, ◌>>=◌, ◌>>◌, call, check, bad_connection, node_invalid,
  vms_unlisted, vmid_exists, name_exists, iso_not_made, iso_unreadable, iso_not_regular,
  bad_disk_size, storage_unknown, storage_refused,
}

-- The loop of `validateTargetNameAvailable`
unfoldable pub find_clash : ConnectionConfig → List VmInfo → Option InstallError
find_clash cfg [] = none
find_clash cfg (vm ∷ vms) =
    let rest = find_clash cfg vms in
    if is_positive cfg.vmid && same_int vm.vmid cfg.vmid
    then some (vmid_exists cfg.vmid)
    else if equal (to_lower (trim_space vm.name)) (to_lower (trim_space cfg.name))
    then some (name_exists vm.vmid)
    else rest

unfoldable pub validate_target_name_available : Client → ConnectionConfig → Step Unit
validate_target_name_available client cfg = do
  vms ← call vms_unlisted (λ h. client.list_vms h cfg.node) (listed_vms cfg.node)
  check (λ e. e) (find_clash cfg vms)

abbrev pub bytes_of : Allocation → Step ℕ
bytes_of (allocated b) = done b
bytes_of (bad_size e) = fail bad_disk_size
bytes_of not_positive = fail bad_disk_size
bytes_of too_large = fail bad_disk_size

-- The loop over the storages.
unfoldable pub check_storages : Client → Text → List Requirement → Step Unit
check_storages client node [] = done tt
check_storages client node (req ∷ requirements) = do
  status ←
      call (storage_unknown req.storage) (λ h. client.storage_status h node req.storage)
        (got_storage_status node req.storage)
  check (storage_refused req.storage) (validate_storage_status req status)
  check_storages client node requirements

unfoldable pub preflight_build_storages : Client → ConnectionConfig → Config → Text → Step Unit
preflight_build_storages client cfg build_cfg path = do
  (is_regular, size) ← call iso_unreadable (λ h. client.stat h path) (stat_file path)
  if is_regular then done tt else fail iso_not_regular
  disk ← bytes_of (allocation_bytes (chosen_disk_size build_cfg.disk_size build_cfg.hardware))
  check_storages client cfg.node (
      sort_requirements (
        build_requirements cfg.iso_storage cfg.disk_storage size
          (disk + efi_disk_bytes build_cfg.hardware) build_cfg.cloud_init_options.enabled))

-- `installWithClient` up to the upload; the path of the ISO that was made.
unfoldable pub prepare : Client → ConnectionConfig → Config → Step Text
prepare client cfg build_cfg = do
  check bad_connection (validate_connection_fields cfg)
  call node_invalid (λ h. client.validate_node h cfg.node) (validated_node cfg.node)
  validate_target_name_available client cfg
  path ← call iso_not_made client.create_installer_iso made_iso
  preflight_build_storages client cfg build_cfg path
  done path
