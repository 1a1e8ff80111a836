-- ===== src/Proxmox/CloudInit/Build.antt =====
-- internal/backend/proxmox/options.go: `BuildCloudInitValues`.
use ubuntu_vm_template_build.Base.{
  List, [], ◌∷◌, ◌++◌, Option, none, some, codes, is_empty, if◌then◌else◌,
}
use ubuntu_vm_template_build.Text.{Text, join}
use ubuntu_vm_template_build.Decimal.{itoa}
use ubuntu_vm_template_build.Proxmox.Values.{Values, set, set_text}
use ubuntu_vm_template_build.Proxmox.Options.Parts.{text_part, comma}
use ubuntu_vm_template_build.Proxmox.Options.Build.{set_bool_value, set_joined}
use ubuntu_vm_template_build.Proxmox.CloudInit.{
  CloudInitIpConfig, CloudInitCustomFiles, CloudInitOptionsConfig, CloudInitError, normalize,
  validate,
}
use ubuntu_vm_template_build.Proxmox.CloudInit.Escape.{encode_proxmox_url_value}

unfoldable pub build_ip_config_value : CloudInitIpConfig → Text
build_ip_config_value nic =
    join
      (text_part (codes "ip=") nic.ipv4
        ++ (text_part (codes "gw=") nic.gateway4
            ++ (text_part (codes "ip6=") nic.ipv6 ++ text_part (codes "gw6=") nic.gateway6)))
      comma

-- The keys that are set, in the order that `sort.Strings` gives them.
unfoldable pub build_ci_custom_value : CloudInitCustomFiles → Text
build_ci_custom_value files =
    join
      (text_part (codes "meta=") files.meta
        ++ (text_part (codes "network=") files.network
            ++ (text_part (codes "user=") files.user ++ text_part (codes "vendor=") files.vendor)))
      comma

-- `if len(options.SSHKeys) > 0`
unfoldable pub set_ssh_keys : List Text → Values → Values
set_ssh_keys keys values =
    if is_empty keys
    then values
    else set (codes "sshkeys") (encode_proxmox_url_value (join keys (10 ∷ []))) values

-- The loop over the network.
unfoldable pub set_network : List CloudInitIpConfig → Values → Values
set_network [] values = values
set_network (nic ∷ nics) values =
    set_network nics
      (set_text (codes "ipconfig" ++ itoa nic.index) (build_ip_config_value nic) values)

-- The values of normal options for a disk on the storage, set in the order of the code.
unfoldable pub cloud_init_values : Text → CloudInitOptionsConfig → Values
cloud_init_values disk_storage o = set_text (codes "cicustom") (build_ci_custom_value o.custom) (
    set_network o.network (
      set_joined (codes "searchdomain") o.dns.search_domains (codes " ") (
        set_joined (codes "nameserver") o.dns.nameservers (codes " ") (
          set_ssh_keys o.ssh_keys (
            set_text (codes "cipassword") o.password (
              set_text (codes "ciuser") o.user (
                set_bool_value (codes "ciupgrade") o.upgrade (
                  set_text (codes "citype") o.type
                    (set (codes "ide2") (disk_storage ++ codes ":cloudinit") [])))))))))

pub data CloudInitBuilt : Type 0 where
  cloud_init_built : Values → CloudInitBuilt
  cloud_init_refused : CloudInitError → CloudInitBuilt

abbrev pub cloud_init_unless : Option CloudInitError → Values → CloudInitBuilt
cloud_init_unless none values = cloud_init_built values
cloud_init_unless (some e) values = cloud_init_refused e

-- `normalizeConnectionConfig` leaves the storage as it is.
unfoldable pub build_cloud_init_values : Text → CloudInitOptionsConfig → CloudInitBuilt
build_cloud_init_values disk_storage c =
    let options = normalize c in
    cloud_init_unless (validate options) (cloud_init_values disk_storage options)
