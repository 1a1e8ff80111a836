-- ===== src/Proxmox/CloudInit.antt =====
-- internal/backend/proxmox/options.go: the Cloud-Init options, their normal form and its checks.
pub mod Escape
pub mod RoundTrip
pub mod Normal
pub mod Accepted
pub mod Network
mod Tests
pub mod Build
use ubuntu_vm_template_build.Base.{
  ℕ, ℤ, pos, negsuc, ◌==◌, Bool, true, false, not, ◌&&◌, ◌||◌, List, [], ◌∷◌, map, Option, none,
  some, if◌then◌else◌, is_empty, is_negative, same_int, codes,
}
use ubuntu_vm_template_build.Text.{Text, trim_space, fold_space}
use ubuntu_vm_template_build.Proxmox.Options.{is_other_than}

pub record CloudInitDnsOptions : Type 0 where
  pub nameservers : List Text
  pub search_domains : List Text

pub record CloudInitIpConfig : Type 0 where
  pub index : ℤ
  pub ipv4 : Text
  pub gateway4 : Text
  pub ipv6 : Text
  pub gateway6 : Text

pub record CloudInitCustomFiles : Type 0 where
  pub user : Text
  pub network : Text
  pub meta : Text
  pub vendor : Text

pub record CloudInitOptionsConfig : Type 0 where
  pub enabled : Bool
  pub type : Text
  pub upgrade : Option Bool
  pub user : Text
  pub password : Text
  pub ssh_keys : List Text
  pub dns : CloudInitDnsOptions
  pub network : List CloudInitIpConfig
  pub custom : CloudInitCustomFiles

unfoldable pub normalize_nic : CloudInitIpConfig → CloudInitIpConfig
normalize_nic nic = record nic {
  ipv4 = trim_space nic.ipv4;
  gateway4 = trim_space nic.gateway4;
  ipv6 = trim_space nic.ipv6;
  gateway6 = trim_space nic.gateway6;
}

unfoldable pub normalize : CloudInitOptionsConfig → CloudInitOptionsConfig
normalize c = record c {
  type = fold_space c.type;
  user = trim_space c.user;
  ssh_keys = map trim_space c.ssh_keys;
  dns = record {
    nameservers = map trim_space c.dns.nameservers;
    search_domains = map trim_space c.dns.search_domains;
  };
  network = map normalize_nic c.network;
  custom = record {
    user = trim_space c.custom.user;
    network = trim_space c.custom.network;
    meta = trim_space c.custom.meta;
    vendor = trim_space c.custom.vendor;
  };
}

pub data CloudInitError : Type 0 where
  bad_type empty_ssh_key empty_nameserver empty_search_domain : CloudInitError
  negative_index duplicated_index gateway4_alone gateway6_alone : CloudInitError

-- One of the values is empty.
unfoldable pub some_empty : List Text → Bool
some_empty [] = false
some_empty (value ∷ values) = is_empty value || some_empty values

-- `seen[nic.Index]`
unfoldable pub is_seen : ℤ → List ℤ → Bool
is_seen index [] = false
is_seen index (other ∷ seen) = same_int index other || is_seen index seen

-- The loop over the network, with the indices seen before.
unfoldable pub check_network : List ℤ → List CloudInitIpConfig → Option CloudInitError
check_network seen [] = none
check_network seen (nic ∷ nics) =
    let rest = check_network (nic.index ∷ seen) nics in
    if is_negative nic.index
    then some negative_index
    else if is_seen nic.index seen
    then some duplicated_index
    else if not (is_empty nic.gateway4) && is_empty nic.ipv4
    then some gateway4_alone
    else if not (is_empty nic.gateway6) && is_empty nic.ipv6
    then some gateway6_alone
    else rest

-- `Validate` behind its call of `Normalize`; `none` is nil.
unfoldable pub check_cloud_init : CloudInitOptionsConfig → Option CloudInitError
check_cloud_init c =
    if is_other_than c.type (codes "nocloud" ∷ codes "configdrive2" ∷ codes "opennebula" ∷ [])
    then some bad_type
    else if some_empty c.ssh_keys
    then some empty_ssh_key
    else if some_empty c.dns.nameservers
    then some empty_nameserver
    else if some_empty c.dns.search_domains
    then some empty_search_domain
    else check_network [] c.network

unfoldable pub validate : CloudInitOptionsConfig → Option CloudInitError
validate c = check_cloud_init (normalize c)
