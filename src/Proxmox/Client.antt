-- ===== src/Proxmox/Client.antt =====
-- internal/backend/proxmox/client.go: the interface `api`, as the build uses it. A server answers a
-- call by what has been called before; what a call returned stands in the history with it.
use ubuntu_vm_template_build.Base.{ℕ, ℤ, Bool, List}
use ubuntu_vm_template_build.Text.{Text}
use ubuntu_vm_template_build.Proxmox.Values.{Values}

-- A result or an error.
pub data Reply (A : Type 0) : Type 0 where
  replied : A → Reply A
  no_reply : Reply A

pub record VmInfo : Type 0 where
  pub vmid : ℤ
  pub name : Text

-- A JSON value as `any` holds it; a number is a decimal fraction with its numerator.
pub data AnyValue : Type 0 where
  null : AnyValue
  boolean : Bool → AnyValue
  number : ℤ → ℕ → AnyValue
  text : Text → AnyValue
  other : AnyValue

-- `flexibleInt64`
pub record FlexibleInt64 : Type 0 where
  pub value : ℤ
  pub is_set : Bool

pub record StorageStatus : Type 0 where
  pub active : AnyValue
  pub enabled : AnyValue
  pub content : Text
  pub avail : FlexibleInt64

pub record StorageUpload : Type 0 where
  pub source_path : Text
  pub file_name : Text
  pub content : Text

-- The calls, with the node's name first and the reply last; the first two are the client's own.
pub data Event : Type 0 where
  made_iso : Reply Text → Event
  stat_file : Text → Reply (Bool × ℕ) → Event
  validated_node : Text → Reply Unit → Event
  got_storage_status : Text → Text → Reply StorageStatus → Event
  listed_vms : Text → Reply (List VmInfo) → Event
  got_next_id : Reply ℤ → Event
  asked_volume : Text → Text → Text → Text → Reply Bool → Event
  uploaded : Text → Text → StorageUpload → Reply Text → Event
  deleted_volume : Text → Text → Text → Reply Text → Event
  created_vm : Text → Values → Reply Text → Event
  started_vm : Text → ℤ → Reply Text → Event
  got_vm_status : Text → ℤ → Reply Text → Event
  updated_config : Text → ℤ → Values → Reply Text → Event
  made_template : Text → ℤ → Reply Text → Event
  stopped_vm : Text → ℤ → Reply Text → Event
  deleted_vm : Text → ℤ → Reply Text → Event
  waited : Text → Text → Reply Unit → Event

-- The newest event first.
abbrev pub History : Type 0
History = List Event

-- The server, the making of the ISO, the file system, and the signal: whether the context is
-- cancelled when so much has happened.
pub record Client : Type 0 where
  pub create_installer_iso : History → Reply Text
  pub stat : History → Text → Reply (Bool × ℕ)
  pub validate_node : History → Text → Reply Unit
  pub storage_status : History → Text → Text → Reply StorageStatus
  pub list_vms : History → Text → Reply (List VmInfo)
  pub next_id : History → Reply ℤ
  pub storage_volume_exists : History → Text → Text → Text → Text → Reply Bool
  pub upload_file : History → Text → Text → StorageUpload → Reply Text
  pub delete_volume : History → Text → Text → Text → Reply Text
  pub create_vm : History → Text → Values → Reply Text
  pub start_vm : History → Text → ℤ → Reply Text
  pub current_vm_status : History → Text → ℤ → Reply Text
  pub update_vm_config : History → Text → ℤ → Values → Reply Text
  pub template_vm : History → Text → ℤ → Reply Text
  pub stop_vm : History → Text → ℤ → Reply Text
  pub delete_vm : History → Text → ℤ → Reply Text
  pub wait_task : History → Text → Text → Reply Unit
  pub interrupted : History → Bool
