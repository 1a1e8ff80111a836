-- ===== src/Proxmox/Install/Iso.antt =====
-- internal/backend/proxmox/proxmox.go: the temporary installer ISO on the server.
use ubuntu_vm_template_build.Base.{true, ◌||◌, if◌then◌else◌, is_empty, codes}
use ubuntu_vm_template_build.Text.{Text}
use ubuntu_vm_template_build.Proxmox.Config.{ConnectionConfig, unless_blank}
use ubuntu_vm_template_build.Proxmox.Client.{
  Client, StorageUpload, asked_volume, uploaded, deleted_volume, waited,
}
use ubuntu_vm_template_build.Proxmox.Install.{
  Step, BuildState, done, fail, ◌>>=◌, ◌>>◌, call, the_state, update, volume_unknown, volume_exists,
  upload_failed, iso_delete_failed, iso_delete_unfinished,
}

abbrev pub upload_content_iso : Text
upload_content_iso = codes "iso"

unfoldable pub upload_temporary_installer_iso :
    Client → ConnectionConfig → Text → Text → Text → Step Text
upload_temporary_installer_iso client cfg path file_name volume = do
  exists ←
      call volume_unknown
        (λ h. client.storage_volume_exists h cfg.node cfg.iso_storage upload_content_iso volume)
        (asked_volume cfg.node cfg.iso_storage upload_content_iso volume)
  if exists then fail volume_exists else done tt
  let upload : StorageUpload = record {
    source_path = path;
    file_name = file_name;
    content = upload_content_iso;
  }
  got ←
      call upload_failed (λ h. client.upload_file h cfg.node cfg.iso_storage upload)
        (uploaded cfg.node cfg.iso_storage upload)
  done (unless_blank got volume)

abbrev pub deleted : BuildState → BuildState
deleted b = record b { temp_iso_deleted = true }

-- The storage that the state names, or the configuration's.
abbrev pub iso_storage_of : ConnectionConfig → BuildState → Text
iso_storage_of cfg b = if is_empty b.temp_iso_storage then cfg.iso_storage else b.temp_iso_storage

unfoldable pub delete_volume_of : Client → ConnectionConfig → Text → Text → Step Unit
delete_volume_of client cfg storage volume = do
  task ←
      call iso_delete_failed (λ h. client.delete_volume h cfg.node storage volume)
        (deleted_volume cfg.node storage volume)
  call iso_delete_unfinished (λ h. client.wait_task h cfg.node task) (waited cfg.node task)
  update deleted

unfoldable pub delete_temporary_iso : Client → ConnectionConfig → Step Unit
delete_temporary_iso client cfg = do
  b ← the_state
  if is_empty b.temp_iso_volume_id || b.temp_iso_deleted
      then done tt
      else delete_volume_of client cfg (iso_storage_of cfg b) b.temp_iso_volume_id
