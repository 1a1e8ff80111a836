-- ===== src/Proxmox/Install/Safety.antt =====
-- internal/backend/proxmox/proxmox.go: a build changes nothing on the server but what is its own.
pub mod Prepared
pub mod Uploads
pub mod Machines
pub mod Changes
pub mod Cleaned
pub mod Whole
use ubuntu_vm_template_build.Base.{
  ℕ, ℤ, ◌≡◌, ◌≢◌, ◌⊎◌, refl, Bool, true, false, List, [], ◌∷◌, ◌++◌, Option, none, some, inl, inr, codes,
  OneOf,
}
use ubuntu_vm_template_build.Text.{Text}
use ubuntu_vm_template_build.Decimal.{itoa}
use ubuntu_vm_template_build.Proxmox.Values.{Values, get}
use ubuntu_vm_template_build.Proxmox.Config.{ConnectionConfig, build_volume_id, unless_blank}
use ubuntu_vm_template_build.Proxmox.Client.{
  Event, History, Reply, replied, VmInfo, StorageUpload, made_iso, stat_file, validated_node,
  got_storage_status, listed_vms, got_next_id, asked_volume, uploaded, deleted_volume, created_vm,
  started_vm, got_vm_status, updated_config, made_template, stopped_vm, deleted_vm, waited,
}
use ubuntu_vm_template_build.Proxmox.Install.{Progress, BuildState}
use ubuntu_vm_template_build.Proxmox.Install.Prepare.{find_clash}
use ubuntu_vm_template_build.Proxmox.Install.Iso.{iso_storage_of}
use ubuntu_vm_template_build.Proxmox.Install.Triple.{Assertion}

module _ (cfg : ConnectionConfig) where
  -- The node has been found valid, and its VMs have neither the number nor the name asked for.
  pub record IsPrepared (h : History) : Type 0 where
    pub valid : OneOf (validated_node cfg.node (replied tt)) h
    pub vms : List VmInfo
    pub listed : OneOf (listed_vms cfg.node (replied vms)) h
    pub no_clash : find_clash cfg vms ≡ none

  -- The server has accepted the creation of the VM with this number.
  pub record IsCreated (vmid : ℤ) (h : History) : Type 0 where
    pub values : Values
    pub task : Text
    pub created : OneOf (created_vm cfg.node values (replied task)) h
    pub numbered : get (codes "vmid") values ≡ some (itoa vmid)

  -- The task has been waited for, with success, behind the call that has started it.
  pub IsEnded : Text → Event → History → Type 0
  IsEnded task e [] = ⊥
  IsEnded task e (w ∷ h) =
      ((w ≡ waited cfg.node task (replied tt)) × OneOf e h) ⊎ IsEnded task e h

  -- The volume is what an upload of this run has made.
  pub record IsUploaded (storage volume : Text) (h : History) : Type 0 where
    pub upload : StorageUpload
    pub got : Text
    pub made : OneOf (uploaded cfg.node storage upload (replied got)) h
    pub named : volume ≡ unless_blank got (build_volume_id storage upload.content upload.file_name)

  -- The volume has been uploaded, and its deletion has been asked for and waited for.
  pub record IsRemoved (volume : Text) (h : History) : Type 0 where
    pub uploaded : IsUploaded cfg.iso_storage volume h
    pub task : Text
    pub deleted : IsEnded task (deleted_volume cfg.node cfg.iso_storage volume (replied task)) h

  -- The server has said that there is no such volume.
  pub IsAbsent : Text → StorageUpload → History → Type 0
  IsAbsent storage upload h =
      OneOf
        (asked_volume cfg.node storage upload.content
          (build_volume_id storage upload.content upload.file_name) (replied false))
        h

  -- What has happened when a call is made that changes the server.
  pub IsOwn : Event → History → Type 0
  IsOwn (uploaded node storage upload r) h =
      (node ≡ cfg.node) × (storage ≡ cfg.iso_storage) × IsPrepared h × IsAbsent storage upload h
  IsOwn (created_vm node values r) h =
      (node ≡ cfg.node)
      × ((volume : Text) × IsUploaded cfg.iso_storage volume h
          × (get (codes "ide2") values ≡ some (volume ++ codes ",media=cdrom")))
  IsOwn (started_vm node vmid r) h = (node ≡ cfg.node) × IsCreated vmid h
  IsOwn (updated_config node vmid values r) h = (node ≡ cfg.node) × IsCreated vmid h
  IsOwn (made_template node vmid r) h = (node ≡ cfg.node) × IsCreated vmid h
  IsOwn (stopped_vm node vmid r) h = (node ≡ cfg.node) × IsCreated vmid h
  IsOwn (deleted_vm node vmid r) h = (node ≡ cfg.node) × IsCreated vmid h
  IsOwn (deleted_volume node storage volume r) h =
      (node ≡ cfg.node) × (storage ≡ cfg.iso_storage) × IsUploaded storage volume h
  IsOwn (made_iso r) h = Unit
  IsOwn (stat_file path r) h = Unit
  IsOwn (validated_node node r) h = Unit
  IsOwn (got_storage_status node storage r) h = Unit
  IsOwn (listed_vms node r) h = Unit
  IsOwn (got_next_id r) h = Unit
  IsOwn (asked_volume node storage content volume r) h = Unit
  IsOwn (got_vm_status node vmid r) h = Unit
  IsOwn (waited node task r) h = Unit

  pub AllOwn : History → Type 0
  unfolding IsOwn
  AllOwn [] = Unit
  AllOwn (e ∷ h) = IsOwn e h × AllOwn h

  -- What the state says is true of the history.
  pub record Inv (s : Progress) : Type 0 where
    pub own : AllOwn s.history
    pub machine : s.build.vm_created ≡ true → IsCreated s.build.vmid s.history
    pub iso :
        s.build.temp_iso_volume_id ≢ []
        → IsUploaded cfg.iso_storage s.build.temp_iso_volume_id s.history
    pub storage : iso_storage_of cfg s.build ≡ cfg.iso_storage
