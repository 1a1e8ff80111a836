-- ===== src/Proxmox/Storage/Checked.antt =====
-- internal/backend/proxmox/proxmox.go: what a storage that passes the check offers.
use ubuntu_vm_template_build.Base.{
  ℕ, pos, ◌+◌, ◌≤◌, ◌≡◌, Bool, true, false, List, [], ◌∷◌, if◌then◌else◌, All,
}
use ubuntu_vm_template_build.Text.{Text, equal}
use ubuntu_vm_template_build.Proxmox.Client.{StorageStatus}
use ubuntu_vm_template_build.Proxmox.Storage.{is_json_false, storage_content_allows, Requirement}

-- The storage is on, takes every content, and has the bytes that are asked for.
pub record IsFit (req : Requirement) (status : StorageStatus) : Type 0 where
  pub active : is_json_false status.active ≡ false
  pub enabled : is_json_false status.enabled ≡ false
  pub contents : All (λ want. storage_content_allows status.content want ≡ true) req.content_types
  pub capacity : ℕ
  pub known : (status.avail.is_set ≡ true) × (status.avail.value ≡ pos capacity)
  pub room : req.required_bytes ≤ capacity

abbrev pub total : Text → List Requirement → ℕ
total storage [] = 0
total storage (req ∷ reqs) =
    let rest = total storage reqs in
    if equal req.storage storage then req.required_bytes + rest else rest

abbrev pub share : Bool → ℕ → ℕ
share true n = n
share false n = 0
