-- ===== src/Proxmox/CloudInit/Network.antt =====
-- internal/backend/proxmox/options.go: the network values of an accepted configuration.
use ubuntu_vm_template_build.Base.{
  ℤ, pos, negsuc, ◌≡◌, refl, sym, ap, subst, ◌∙◌, inl, inr, Bool, true, false, List, [], ◌∷◌, ◌++◌,
  Option, none, some, is_negative, same_int, Bool-cases, All, codes, arith,
}
use ubuntu_vm_template_build.Text.{Text, equal}
use ubuntu_vm_template_build.Text.Trim.{equal_iff, equal_refl}
use ubuntu_vm_template_build.Decimal.{itoa}
use ubuntu_vm_template_build.Decimal.Laws.{digits-injective}
use ubuntu_vm_template_build.Proxmox.Options.Sent.{set_joined-set_row, set_bool_value-set_row}
use ubuntu_vm_template_build.Proxmox.Options.Build.{set_joined, set_bool_value}
use ubuntu_vm_template_build.Proxmox.Values.{Values, get, set, set_text, get-set, get-set_text}
use ubuntu_vm_template_build.Proxmox.Values.Rows.{non_empty, get-set_row}
use ubuntu_vm_template_build.Proxmox.CloudInit.{
  CloudInitIpConfig, CloudInitOptionsConfig, CloudInitError, normalize, is_seen, check_network,
  check_cloud_init, validate,
}
use ubuntu_vm_template_build.Proxmox.CloudInit.Normal.{normalize_idem}
use ubuntu_vm_template_build.Proxmox.CloudInit.Build.{
  build_ip_config_value, set_network, set_ssh_keys, cloud_init_unless, cloud_init_values,
  cloud_init_built, build_cloud_init_values,
}
use ubuntu_vm_template_build.Proxmox.CloudInit.Accepted.{IsNic, AreNics, check_network-AreNics}

abbrev pub ip_key : ℤ → Text
ip_key index = codes "ipconfig" ++ itoa index

abbrev behind_8 : Text → Text
behind_8 (a ∷ b ∷ c ∷ d ∷ e ∷ f ∷ g ∷ h ∷ s) = s
behind_8 s = []

ip_key-same :
    (i j : ℤ)
    → is_negative i ≡ false
    → is_negative j ≡ false
    → ip_key i ≡ ip_key j
    → same_int i j ≡ true
unfolding itoa
ip_key-same (pos m) (pos n) h k e =
    let same : m ≡ n = digits-injective m n (ap behind_8 e) in ground arith
ip_key-same (pos m) (negsuc n) h k e = cc
ip_key-same (negsuc m) j h k e = cc

ip_key-other :
    (i j : ℤ)
    → is_negative i ≡ false
    → is_negative j ≡ false
    → same_int i j ≡ false
    → equal (ip_key j) (ip_key i) ≡ false
ip_key-other i j h k e = elim (Bool-cases (equal (ip_key j) (ip_key i))) [
  | inr other ↦ other
  | inl same ↦ cc (ip_key-same i j h k (sym ((equal_iff (ip_key j) (ip_key i)).0 same)))
]

same_int_eq : (i j : ℤ) → same_int i j ≡ true → i ≡ j
same_int_eq (pos m) (pos n) h = ap pos (ground arith)
same_int_eq (negsuc m) (negsuc n) h = ap negsuc (ground arith)
same_int_eq (pos m) (negsuc n) h = cc
same_int_eq (negsuc m) (pos n) h = cc

seen_other :
    (seen : List ℤ) (i j : ℤ)
    → is_seen i seen ≡ true
    → is_seen j seen ≡ false
    → same_int i j ≡ false
seen_other seen i j h k = elim (Bool-cases (same_int i j)) [
  | inr other ↦ other
  | inl same ↦ cc (ap (λ n. is_seen n seen) (same_int_eq i j same))
]

-- A number that has been set is not set again.
set_network-seen :
    (seen : List ℤ) (nics : List CloudInitIpConfig) (i : ℤ) (values : Values)
    → AreNics seen nics
    → is_negative i ≡ false
    → is_seen i seen ≡ true
    → get (ip_key i) (set_network nics values) ≡ get (ip_key i) values
unfolding AreNics set_network is_seen
set_network-seen seen [] i values _ h k = refl
set_network-seen seen (nic ∷ nics) i values (n, ns) h k =
    let other = ip_key-other i nic.index h n.natural (seen_other seen i nic.index k n.fresh) in
    set_network-seen (nic.index ∷ seen) nics i _ ns h (ground arith)
    ∙ get-set_text (ip_key nic.index) (ip_key i) (build_ip_config_value nic) values
    ∙ rw other refl

-- No number but those seen is set yet.
abbrev Unset : List ℤ → Values → Type 0
Unset seen values =
    (i : ℤ) → is_negative i ≡ false → is_seen i seen ≡ false → get (ip_key i) values ≡ none

same_int_refl : (i : ℤ) → same_int i i ≡ true
same_int_refl (pos n) = ground arith
same_int_refl (negsuc n) = ground arith

Unset-more :
    (seen : List ℤ) (nic : CloudInitIpConfig) (values : Values)
    → IsNic seen nic
    → Unset seen values
    → Unset (nic.index ∷ seen) (set_text (ip_key nic.index) (build_ip_config_value nic) values)
unfolding is_seen
Unset-more seen nic values n unset i h k =
    let other = ip_key-other i nic.index h n.natural (ground arith) in
    get-set_text (ip_key nic.index) (ip_key i) (build_ip_config_value nic) values
    ∙ rw other (unset i h (ground arith))

set_network-All :
    (seen : List ℤ) (nics : List CloudInitIpConfig) (values : Values)
    → AreNics seen nics
    → Unset seen values
    → All
        (λ nic.
          get (ip_key nic.index) (set_network nics values) ≡ non_empty (build_ip_config_value nic))
        nics
unfolding AreNics set_network is_seen
set_network-All seen [] values _ _ = tt
set_network-All seen (nic ∷ nics) values (n, ns) unset =
    let later = set_text (ip_key nic.index) (build_ip_config_value nic) values in
    let found : is_seen nic.index (nic.index ∷ seen) ≡ true =
      ground (arith, same_int_refl nic.index) in
    (
      set_network-seen (nic.index ∷ seen) nics nic.index later ns n.natural found
          ∙ get-set_text (ip_key nic.index) (ip_key nic.index) (build_ip_config_value nic) values
          ∙ rw (equal_refl (ip_key nic.index), unset nic.index n.natural n.fresh) refl,
      set_network-All (nic.index ∷ seen) nics later ns (Unset-more seen nic values n unset),
    )

set_ssh_keys-other :
    (ks : List Text) (key : Text) (values : Values)
    → equal (codes "sshkeys") key ≡ false
    → get key (set_ssh_keys ks values) ≡ get key values
unfolding set_ssh_keys
set_ssh_keys-other [] key values h = refl
set_ssh_keys-other (k ∷ ks) key values h = get-set _ _ _ _ ∙ rw h refl

set_text-other :
    (key other value : Text) (values : Values)
    → equal key other ≡ false
    → get other (set_text key value values) ≡ get other values
set_text-other key other value values h = get-set_text key other value values ∙ rw h refl

set_joined-other :
    (key other : Text) (parts : List Text) (sep : Text) (values : Values)
    → equal key other ≡ false
    → get other (set_joined key parts sep values) ≡ get other values
set_joined-other key other parts sep values h =
    rw (set_joined-set_row key parts sep values) (get-set_row key other _ values h)

set_bool_value-other :
    (key other : Text) (b : Option Bool) (values : Values)
    → equal key other ≡ false
    → get other (set_bool_value key b values) ≡ get other values
set_bool_value-other key other b values h =
    rw (set_bool_value-set_row key b values) (get-set_row key other _ values h)

-- The values before those of the network.
abbrev before_network : Text → CloudInitOptionsConfig → Values
before_network disk_storage o = set_joined (codes "searchdomain") o.dns.search_domains (codes " ") (
    set_joined (codes "nameserver") o.dns.nameservers (codes " ") (
      set_ssh_keys o.ssh_keys (
        set_text (codes "cipassword") o.password (
          set_text (codes "ciuser") o.user (
            set_bool_value (codes "ciupgrade") o.upgrade (
              set_text (codes "citype") o.type
                (set (codes "ide2") (disk_storage ++ codes ":cloudinit") [])))))))

before_network-Unset :
    (disk_storage : Text) (o : CloudInitOptionsConfig) → Unset [] (before_network disk_storage o)
unfolding equal get set
before_network-Unset disk_storage o i _ _ =
    set_joined-other _ (ip_key i) _ _ _ refl
    ∙ set_joined-other _ (ip_key i) _ _ _ refl
    ∙ set_ssh_keys-other _ (ip_key i) _ refl
    ∙ set_text-other _ (ip_key i) _ _ refl
    ∙ set_text-other _ (ip_key i) _ _ refl
    ∙ set_bool_value-other _ (ip_key i) _ _ refl
    ∙ set_text-other _ (ip_key i) _ _ refl

behind_custom :
    (custom : Text) (values : Values) (nics : List CloudInitIpConfig)
    → All (λ nic. get (ip_key nic.index) values ≡ non_empty (build_ip_config_value nic)) nics
    → All
        (λ nic.
          get (ip_key nic.index) (set_text (codes "cicustom") custom values)
          ≡ non_empty (build_ip_config_value nic))
        nics
unfolding equal
behind_custom custom values [] _ = tt
behind_custom custom values (nic ∷ nics) (e, es) = (
  set_text-other (codes "cicustom") (ip_key nic.index) custom values refl ∙ e,
  behind_custom custom values nics es,
)

cloud_init_values-All :
    (disk_storage : Text) (o : CloudInitOptionsConfig)
    → AreNics [] o.network
    → All
        (λ nic.
          get (ip_key nic.index) (cloud_init_values disk_storage o)
          ≡ non_empty (build_ip_config_value nic))
        o.network
unfolding cloud_init_values
cloud_init_values-All disk_storage o nics =
    behind_custom _ _ o.network
      (set_network-All [] o.network _ nics (before_network-Unset disk_storage o))

accepted :
    (e : Option CloudInitError) (values sent : Values)
    → cloud_init_unless e values ≡ cloud_init_built sent
    → (e ≡ none) × (values ≡ sent)
accepted none values sent h = (refl, cc)
accepted (some e) values sent h = cc

check_cloud_init-network :
    (c : CloudInitOptionsConfig) → check_cloud_init c ≡ none → check_network [] c.network ≡ none
unfolding check_cloud_init
check_cloud_init-network c h = ground arith

-- Cloud-Init options that are built have interfaces with different numbers, none negative, and an
-- address wherever there is a gateway of the family; and every interface's value is sent under its
-- own number, where neither another interface nor another option replaces it.
pub build_cloud_init_values-network :
    (disk_storage : Text) (c : CloudInitOptionsConfig) (values : Values)
    → build_cloud_init_values disk_storage c ≡ cloud_init_built values
    → AreNics [] (normalize c).network
      × All
          (λ nic. get (ip_key nic.index) values ≡ non_empty (build_ip_config_value nic))
          (normalize c).network
unfolding build_cloud_init_values validate
build_cloud_init_values-network disk_storage c values h =
    let (valid, same) =
      accepted (check_cloud_init (normalize (normalize c)))
        (cloud_init_values disk_storage (normalize c)) values h in
    let nics : AreNics [] (normalize c).network =
      subst (λ n. AreNics [] n.network) (normalize_idem c)
        (check_network-AreNics [] (normalize (normalize c)).network
          (check_cloud_init-network (normalize (normalize c)) valid)) in
    let All_sent : Values → Type 0 = λ v.
      All (λ nic. get (ip_key nic.index) v ≡ non_empty (build_ip_config_value nic))
        (normalize c).network in
    (nics, subst All_sent same (cloud_init_values-All disk_storage (normalize c) nics))
