-- ===== src/Proxmox/CloudInit/Accepted.antt =====
-- internal/backend/proxmox/options.go: what the check of the network accepts.
use ubuntu_vm_template_build.Base.{
  ℤ, ◌≡◌, inl, inr, false, not, ◌&&◌, List, [], ◌∷◌, none, is_empty, is_negative, Bool-cases, arith,
}
use ubuntu_vm_template_build.Proxmox.CloudInit.{CloudInitIpConfig, is_seen, check_network}

-- An interface with a number that is none of these, and with an address where it has a gateway.
pub record IsNic (seen : List ℤ) (nic : CloudInitIpConfig) : Type 0 where
  pub natural : is_negative nic.index ≡ false
  pub fresh : is_seen nic.index seen ≡ false
  pub routed4 : is_empty nic.gateway4 ≡ false → is_empty nic.ipv4 ≡ false
  pub routed6 : is_empty nic.gateway6 ≡ false → is_empty nic.ipv6 ≡ false

-- The interfaces one after the other, each with the numbers before it.
unfoldable pub AreNics : List ℤ → List CloudInitIpConfig → Type 0
AreNics seen [] = Unit
AreNics seen (nic ∷ nics) = IsNic seen nic × AreNics (nic.index ∷ seen) nics

pub check_network-AreNics :
    (seen : List ℤ) (nics : List CloudInitIpConfig)
    → check_network seen nics ≡ none
    → AreNics seen nics
unfolding check_network AreNics
check_network-AreNics seen [] h = tt
check_network-AreNics seen (nic ∷ nics) h = elim (Bool-cases (is_negative nic.index)) [
  | inl bad ↦ cc (rw bad at h)
  | inr natural ↦ elim (Bool-cases (is_seen nic.index seen)) [
    | inl bad ↦ cc (rw (natural, bad) at h)
    | inr fresh ↦ elim (Bool-cases (not (is_empty nic.gateway4) && is_empty nic.ipv4)) [
      | inl bad ↦ cc (rw (natural, fresh, bad) at h)
      | inr good4 ↦ elim (Bool-cases (not (is_empty nic.gateway6) && is_empty nic.ipv6)) [
        | inl bad ↦ cc (rw (natural, fresh, good4, bad) at h)
        | inr good6 ↦ (
          record {
            natural = natural;
            fresh = fresh;
            routed4 = λ g. ground arith;
            routed6 = λ g. ground arith;
          },
          check_network-AreNics (nic.index ∷ seen) nics (rw (natural, fresh, good4, good6) at h),
        )
      ]
    ]
  ]
]
