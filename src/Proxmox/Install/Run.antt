-- ===== src/Proxmox/Install/Run.antt =====
-- internal/backend/proxmox/proxmox.go: `installWithClient` and its deferred cleanup.
use ubuntu_vm_template_build.Base.{
  ℕ, ℤ, Bool, true, false, not, ◌&&◌, [], if◌then◌else◌, is_empty, is_positive,
}
use ubuntu_vm_template_build.Text.{Text}
use ubuntu_vm_template_build.Proxmox.Config.{
  Config, ConnectionConfig, normalize_connection_config, build_volume_id, build_temp_iso_file_name,
}
use ubuntu_vm_template_build.Proxmox.Client.{Client, waited}
use ubuntu_vm_template_build.Proxmox.Install.{
  Progress, Step, Outcome, BuildState, new_build_state, returned, failed, done, ◌>>=◌, ◌>>◌, call,
  the_state, update, creation_unfinished, attempt,
}
use ubuntu_vm_template_build.Proxmox.Install.Prepare.{prepare}
use ubuntu_vm_template_build.Proxmox.Install.Iso.{
  upload_content_iso, upload_temporary_installer_iso, delete_temporary_iso,
}
use ubuntu_vm_template_build.Proxmox.Install.Machine.{
  request_vm, power_on_and_wait_for_installer, finalize_post_install_config,
  apply_cloud_init_options, apply_vm_options, maybe_convert_to_template, destroy_interrupted_vm,
}

-- The record of the uploaded ISO in the state.
abbrev pub set_iso : Text → Text → Text → BuildState → BuildState
set_iso file_name volume storage b = record b {
  temp_iso_content = upload_content_iso;
  temp_iso_file_name = file_name;
  temp_iso_volume_id = volume;
  temp_iso_storage = storage;
}

abbrev pub set_created : Bool → BuildState → BuildState
set_created created b = record b { vm_created = created }

abbrev pub set_output_started : BuildState → BuildState
set_output_started b = record b { output_was_started = true }

abbrev pub set_completed : BuildState → BuildState
set_completed b = record b { completed = true }

-- The ISO's upload, with its record in the state.
unfoldable pub upload_iso : Client → ConnectionConfig → Text → Text → Step Text
upload_iso client cfg time path = do
  let file_name : Text = build_temp_iso_file_name cfg.name time
  let volume : Text = build_volume_id cfg.iso_storage upload_content_iso file_name
  uploaded_volume ← upload_temporary_installer_iso client cfg path file_name volume
  update (set_iso file_name uploaded_volume cfg.iso_storage)
  done uploaded_volume

-- The VM's creation up to its mark in the state.
unfoldable pub create_vm : Client → ConnectionConfig → Config → Text → Step ℤ
create_vm client cfg build_cfg volume = do
  (vmid, task) ← request_vm client cfg build_cfg volume
  call creation_unfinished (λ h. client.wait_task h cfg.node task) (waited cfg.node task)
  update (set_created true)
  done vmid

-- From the installer's run to the end.
unfoldable pub finish_vm : Client → ConnectionConfig → Config → ℤ → ℕ → Step Unit
finish_vm client cfg build_cfg vmid polls = do
  power_on_and_wait_for_installer client cfg.node vmid polls
  update set_output_started
  finalize_post_install_config client build_cfg cfg.node vmid
  apply_cloud_init_options client build_cfg cfg.node vmid
  apply_vm_options client build_cfg cfg.node vmid
  maybe_convert_to_template client cfg.node vmid build_cfg.hardware.proxmox.output_type
  delete_temporary_iso client cfg
  update set_completed

-- The body of `installWithClient`, for a normal connection, with the formatted time and the polls.
unfoldable pub build_vm : Client → ConnectionConfig → Config → Text → ℕ → Step Unit
build_vm client cfg build_cfg time polls = do
  path ← prepare client cfg build_cfg
  volume ← upload_iso client cfg time path
  vmid ← create_vm client cfg build_cfg volume
  finish_vm client cfg build_cfg vmid polls

abbrev pub when_returned : Outcome Unit → Step Unit → Step Unit
when_returned (returned x) m = m
when_returned (failed e) m = done tt

unfoldable pub remove_vm : Client → ConnectionConfig → Step Unit
remove_vm client cfg = do
  b ← the_state
  if b.vm_created && is_positive b.vmid
      then attempt (destroy_interrupted_vm client cfg.node b.vmid)
          (λ o. when_returned o (update (set_created false)))
      else done tt

unfoldable pub remove_iso : Client → ConnectionConfig → Step Unit
remove_iso client cfg = do
  b ← the_state
  if not (is_empty b.temp_iso_volume_id) && not b.temp_iso_deleted
      then attempt (delete_temporary_iso client cfg) (λ o. done tt)
      else done tt

unfoldable pub cleanup_interrupted_build : Client → ConnectionConfig → Step Unit
cleanup_interrupted_build client cfg = remove_vm client cfg >> remove_iso client cfg

-- The deferred function: `ctx.Err() == nil || state.completed` leaves everything.
abbrev pub cleaned_up :
    Client → ConnectionConfig → Outcome Unit × Progress → Outcome Unit × Progress
cleaned_up client cfg (outcome, s) =
    if client.interrupted s.history && not s.build.completed
    then (outcome, (cleanup_interrupted_build client cfg s).1)
    else (outcome, s)

abbrev pub start : Progress
start = record { history = []; build = new_build_state }

unfoldable pub install_with_client : Client → Config → Text → ℕ → Outcome Unit × Progress
install_with_client client build_cfg time polls =
    let cfg = normalize_connection_config build_cfg.proxmox build_cfg.display_name in
    cleaned_up client cfg (build_vm client cfg build_cfg time polls start)
