-- ===== src/Proxmox/Install.antt =====
-- internal/backend/proxmox/proxmox.go: `installWithClient`. A step takes what has happened so far and
-- returns a result or an error, and what has happened then.
pub mod Prepare
pub mod Iso
pub mod Machine
pub mod Run
pub mod Triple
pub mod Safety
pub mod Polling
pub mod Attempts
pub mod Cleanup
mod Tests
use ubuntu_vm_template_build.Base.{ℕ, ℤ, pos, Bool, true, false, List, [], ◌∷◌, Option, none, some}
use ubuntu_vm_template_build.Text.{Text}
use ubuntu_vm_template_build.Proxmox.Options.{OptionsError}
use ubuntu_vm_template_build.Proxmox.CloudInit.{CloudInitError}
use ubuntu_vm_template_build.Proxmox.Config.{ConnectionError}
use ubuntu_vm_template_build.Proxmox.Vm.{VmError}
use ubuntu_vm_template_build.Proxmox.Storage.{StorageError}
use ubuntu_vm_template_build.Proxmox.Client.{Event, History, Reply, replied, no_reply}

-- `buildState`, less the configuration and the client, which stay the same.
pub record BuildState : Type 0 where
  pub vmid : ℤ
  pub vm_created : Bool
  pub temp_iso_content : Text
  pub temp_iso_file_name : Text
  pub temp_iso_volume_id : Text
  pub temp_iso_storage : Text
  pub temp_iso_deleted : Bool
  pub completed : Bool
  pub output_was_started : Bool

abbrev pub new_build_state : BuildState
new_build_state = record {
  vmid = pos 0;
  vm_created = false;
  temp_iso_content = [];
  temp_iso_file_name = [];
  temp_iso_volume_id = [];
  temp_iso_storage = [];
  temp_iso_deleted = false;
  completed = false;
  output_was_started = false;
}

pub record Progress : Type 0 where
  pub history : History
  pub build : BuildState

pub data ConfigChange : Type 0 where
  finalization cloud_init_options vm_options : ConfigChange

-- The returns of an error, in the order of the code.
pub data InstallError : Type 0 where
  bad_connection : ConnectionError → InstallError
  node_invalid vms_unlisted : InstallError
  vmid_exists name_exists : ℤ → InstallError
  iso_not_made iso_unreadable iso_not_regular bad_disk_size : InstallError
  storage_unknown : Text → InstallError
  storage_refused : Text → StorageError → InstallError
  volume_unknown volume_exists upload_failed : InstallError
  vmid_not_allocated vmid_invalid : InstallError
  bad_vm : VmError → InstallError
  creation_failed creation_unfinished : InstallError
  power_on_failed power_on_unfinished power_status_unknown cancelled no_more_polls : InstallError
  bad_cloud_init : CloudInitError → InstallError
  bad_options : OptionsError → InstallError
  change_failed change_unfinished : ConfigChange → InstallError
  template_failed template_unfinished : InstallError
  iso_delete_failed iso_delete_unfinished : InstallError
  stop_failed stop_unfinished vm_delete_failed vm_delete_unfinished : InstallError

pub data Outcome (A : Type 0) : Type 0 where
  returned : A → Outcome A
  failed : InstallError → Outcome A

abbrev pub Step : Type 0 → Type 0
Step A = Progress → Outcome A × Progress

unfoldable pub done : {A : Type 0} → A → Step A
done a s = (returned a, s)

unfoldable pub fail : {A : Type 0} → InstallError → Step A
fail e s = (failed e, s)

abbrev pub then_do : {A B : Type 0} → Outcome A × Progress → (A → Step B) → Outcome B × Progress
then_do (returned a, s) f = f a s
then_do (failed e, s) f = (failed e, s)

infixl 5 ◌>>=◌ ◌>>◌
unfoldable pub ◌>>=◌ : {A B : Type 0} → Step A → (A → Step B) → Step B
◌>>=◌ m f s = then_do (m s) f

unfoldable pub ◌>>◌ : {A B : Type 0} → Step A → Step B → Step B
unfolding ◌>>=◌
m >> k = m >>= λ _. k

abbrev pub failing_over : {A : Type 0} → Step Unit → Outcome A × Progress → Outcome A × Progress
failing_over cleanup (returned a, s) = (returned a, s)
failing_over cleanup (failed e, s) = (failed e, (cleanup s).1)

-- `if err != nil { _ = cleanup(); return err }`
unfoldable pub or_first : {A : Type 0} → Step Unit → Step A → Step A
or_first cleanup m s = failing_over cleanup (m s)

unfoldable pub the_state : Step BuildState
the_state s = (returned s.build, s)

unfoldable pub update : (BuildState → BuildState) → Step Unit
update f s = (returned tt, record s { build = f s.build })

abbrev pub expect : {A : Type 0} → InstallError → Reply A → Step A
unfolding done fail
expect e (replied a) = done a
expect e no_reply = fail e

-- A call, and the error that the code makes of its error.
unfoldable pub call : {A : Type 0} → InstallError → (History → Reply A) → (Reply A → Event) → Step A
call e ask event s =
    let reply = ask s.history in expect e reply (record s { history = event reply ∷ s.history })

-- A check that returns nil or an error.
unfoldable pub check : {E : Type 0} → (E → InstallError) → Option E → Step Unit
check wrap none = done tt
check wrap (some e) = fail (wrap e)

-- The step runs; an error is a warning only.
abbrev pub attempt : Step Unit → (Outcome Unit → Step Unit) → Step Unit
attempt m next s = let (outcome, s') = m s in next outcome s'
