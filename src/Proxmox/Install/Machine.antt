-- ===== src/Proxmox/Install/Machine.antt =====
-- internal/backend/proxmox/proxmox.go: the virtual machine, from its number to the template.
use ubuntu_vm_template_build.Base.{
  ◌∷◌, ℕ, zero, suc, ℤ, Bool, false, not, ◌&&◌, if◌then◌else◌, is_empty, is_positive, codes,
}
use ubuntu_vm_template_build.Text.{Text, equal}
use ubuntu_vm_template_build.Proxmox.Values.{Values}
use ubuntu_vm_template_build.Proxmox.Options.Build.{Built, built, refused, build_options_values}
use ubuntu_vm_template_build.Proxmox.CloudInit.Build.{
  CloudInitBuilt, cloud_init_built, cloud_init_refused, build_cloud_init_values,
}
use ubuntu_vm_template_build.Proxmox.Config.{Config, ConnectionConfig, is_vm_output}
use ubuntu_vm_template_build.Proxmox.Vm.{
  VmValues, vm_values, vm_refused, build_create_vm_values, build_finalize_vm_values,
}
use ubuntu_vm_template_build.Proxmox.Client.{
  Client, Reply, replied, no_reply, got_next_id, created_vm, started_vm, got_vm_status,
  updated_config, made_template, stopped_vm, deleted_vm, waited,
}
use ubuntu_vm_template_build.Proxmox.Install.{
  Step, BuildState, ConfigChange, finalization, cloud_init_options, vm_options, returned, done,
  fail, ◌>>=◌, ◌>>◌, call, or_first, update, bad_vm, bad_options, bad_cloud_init,
  vmid_not_allocated, vmid_invalid, creation_failed, power_on_failed, power_on_unfinished,
  power_status_unknown, cancelled, no_more_polls, change_failed, change_unfinished, template_failed,
  template_unfinished, stop_failed, stop_unfinished, vm_delete_failed, vm_delete_unfinished,
}
use ubuntu_vm_template_build.Proxmox.Install.Iso.{delete_temporary_iso}

abbrev allocate_vmid : Client → Step ℤ
allocate_vmid client = do
  vmid ← call vmid_not_allocated client.next_id got_next_id
  if is_positive vmid then done vmid else fail vmid_invalid

unfoldable pub select_vmid : Client → ConnectionConfig → Step ℤ
select_vmid client cfg = if is_positive cfg.vmid then done cfg.vmid else allocate_vmid client

abbrev pub values_of : VmValues → Step Values
values_of (vm_values values) = done values
values_of (vm_refused e) = fail (bad_vm e)

abbrev pub set_vmid : ℤ → BuildState → BuildState
set_vmid vmid b = record b { vmid = vmid }

-- From the choice of the number to the task that creates the VM; an error deletes the ISO first.
unfoldable pub request_vm : Client → ConnectionConfig → Config → Text → Step (ℤ × Text)
request_vm client cfg build_cfg volume = do
  vmid ← or_first (delete_temporary_iso client cfg) (select_vmid client cfg)
  update (set_vmid vmid)
  values ←
      or_first (delete_temporary_iso client cfg)
        (values_of (build_create_vm_values build_cfg vmid volume))
  task ←
      or_first (delete_temporary_iso client cfg) (
        call creation_failed (λ h. client.create_vm h cfg.node values) (created_vm cfg.node values))
  done (vmid, task)

abbrev pub is_interrupted : Client → Step Bool
is_interrupted client s = (returned (client.interrupted s.history), s)

-- The loop of `powerOnAndWaitForInstaller`, with the polls that are made at most. Where the timer
-- and the cancellation are both ready, the cancellation is taken.
unfoldable pub wait_for_power_off : Client → Text → ℤ → ℕ → Step Unit
wait_for_power_off client node vmid zero = fail no_more_polls
wait_for_power_off client node vmid (suc polls) =
    let again = wait_for_power_off client node vmid polls in
    do
      status ←
          call power_status_unknown (λ h. client.current_vm_status h node vmid)
            (got_vm_status node vmid)
      now ← is_interrupted client
      if equal status (codes "stopped") then done tt else if now then fail cancelled else again

unfoldable pub power_on_and_wait_for_installer : Client → Text → ℤ → ℕ → Step Unit
power_on_and_wait_for_installer client node vmid polls = do
  task ← call power_on_failed (λ h. client.start_vm h node vmid) (started_vm node vmid)
  call power_on_unfinished (λ h. client.wait_task h node task) (waited node task)
  wait_for_power_off client node vmid polls

-- `UpdateVMConfig` and `WaitTask`, as three functions call them.
unfoldable pub change_config : Client → Text → ℤ → ConfigChange → Values → Step Unit
change_config client node vmid change values = do
  task ←
      call (change_failed change) (λ h. client.update_vm_config h node vmid values)
        (updated_config node vmid values)
  call (change_unfinished change) (λ h. client.wait_task h node task) (waited node task)

unfoldable pub finalize_post_install_config : Client → Config → Text → ℤ → Step Unit
finalize_post_install_config client cfg node vmid =
    values_of (build_finalize_vm_values cfg) >>= change_config client node vmid finalization

abbrev pub change_unless_empty : Client → Text → ℤ → ConfigChange → Values → Step Unit
change_unless_empty client node vmid change values =
    if is_empty values then done tt else change_config client node vmid change values

abbrev pub with_cloud_init : Client → Text → ℤ → CloudInitBuilt → Step Unit
with_cloud_init client node vmid (cloud_init_built values) =
    change_unless_empty client node vmid cloud_init_options values
with_cloud_init client node vmid (cloud_init_refused e) = fail (bad_cloud_init e)

unfoldable pub apply_cloud_init_options : Client → Config → Text → ℤ → Step Unit
apply_cloud_init_options client cfg node vmid =
    if not cfg.cloud_init_options.enabled
    then done tt
    else with_cloud_init client node vmid
        (build_cloud_init_values cfg.proxmox.disk_storage cfg.cloud_init_options)

abbrev pub with_options : Client → Text → ℤ → Built → Step Unit
with_options client node vmid (built values) =
    change_unless_empty client node vmid vm_options values
with_options client node vmid (refused e) = fail (bad_options e)

unfoldable pub apply_vm_options : Client → Config → Text → ℤ → Step Unit
apply_vm_options client cfg node vmid =
    if not cfg.options.enabled
    then done tt
    else with_options client node vmid (build_options_values cfg.options)

abbrev pub convert : Client → Text → ℤ → Step Unit
convert client node vmid = do
  task ← call template_failed (λ h. client.template_vm h node vmid) (made_template node vmid)
  call template_unfinished (λ h. client.wait_task h node task) (waited node task)

unfoldable pub maybe_convert_to_template : Client → Text → ℤ → Text → Step Unit
maybe_convert_to_template client node vmid output_type =
    if is_vm_output output_type then done tt else convert client node vmid

abbrev pub stop_vm_first : Client → Text → ℤ → Step Unit
stop_vm_first client node vmid = do
  task ← call stop_failed (λ h. client.stop_vm h node vmid) (stopped_vm node vmid)
  call stop_unfinished (λ h. client.wait_task h node task) (waited node task)

-- `err == nil && status.Status != "" && status.Status != "stopped"`
abbrev pub is_running : Reply Text → Bool
is_running (replied status) = not (is_empty status) && not (equal status (codes "stopped"))
is_running no_reply = false

-- A reply as it is, with an error among the results.
abbrev pub read_status : Client → Text → ℤ → Step (Reply Text)
read_status client node vmid s =
    let reply = client.current_vm_status s.history node vmid in
    (returned reply, record s { history = got_vm_status node vmid reply ∷ s.history })

unfoldable pub destroy_interrupted_vm : Client → Text → ℤ → Step Unit
destroy_interrupted_vm client node vmid = do
  status ← read_status client node vmid
  if is_running status then stop_vm_first client node vmid else done tt
  task ← call vm_delete_failed (λ h. client.delete_vm h node vmid) (deleted_vm node vmid)
  call vm_delete_unfinished (λ h. client.wait_task h node task) (waited node task)
