-- ===== src/Proxmox/CloudInit/Normal.antt =====
-- internal/backend/proxmox/options.go: the normal form of the Cloud-Init options.
use ubuntu_vm_template_build.Base.{◌≡◌, refl, List, [], ◌∷◌, map}
use ubuntu_vm_template_build.Text.Trim.{trim_space_idem, fold_space_idem}
use ubuntu_vm_template_build.Proxmox.Options.Sent.{map-trim_space_idem}
use ubuntu_vm_template_build.Proxmox.CloudInit.{
  CloudInitIpConfig, CloudInitOptionsConfig, normalize_nic, normalize,
}

map-normalize_nic_idem :
    (nics : List CloudInitIpConfig)
    → map normalize_nic (map normalize_nic nics) ≡ map normalize_nic nics
unfolding normalize_nic
map-normalize_nic_idem [] = refl
map-normalize_nic_idem (nic ∷ nics) = simp (trim_space_idem, map-normalize_nic_idem nics)

pub normalize_idem : (c : CloudInitOptionsConfig) → normalize (normalize c) ≡ normalize c
unfolding normalize
normalize_idem c =
    simp (trim_space_idem, fold_space_idem, map-trim_space_idem, map-normalize_nic_idem)
