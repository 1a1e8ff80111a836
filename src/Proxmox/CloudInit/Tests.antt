-- ===== src/Proxmox/CloudInit/Tests.antt =====
-- internal/backend/proxmox/options.go: Cloud-Init values of small configurations.
use ubuntu_vm_template_build.Base.{pos, ◌≡◌, refl, true, false, [], ◌∷◌, some, codes, All, arith}
use ubuntu_vm_template_build.Text.{
  is_space, trim_left_by, trim_right_by, trim_by, trim_space, lower, to_lower, equal, is_among,
  join, replace_all,
}
use ubuntu_vm_template_build.Decimal.{itoa, digits, digits_onto}
use ubuntu_vm_template_build.Proxmox.Values.{Values, get, set, set_text}
use ubuntu_vm_template_build.Proxmox.Values.Rows.{non_empty}
use ubuntu_vm_template_build.Proxmox.Options.{is_other_than}
use ubuntu_vm_template_build.Proxmox.Options.Build.{set_bool_value, set_joined}
use ubuntu_vm_template_build.Proxmox.CloudInit.{
  CloudInitOptionsConfig, normalize, normalize_nic, some_empty, is_seen, check_network,
  check_cloud_init, validate,
}
use ubuntu_vm_template_build.Proxmox.CloudInit.Escape.{
  utf8, is_unreserved, hex_digit, escape_byte, query_escape, encode_proxmox_url_value,
}
use ubuntu_vm_template_build.Proxmox.CloudInit.RoundTrip.{
  percent_decode, percent_decode-encode_proxmox_url_value,
}
use ubuntu_vm_template_build.Proxmox.CloudInit.Build.{
  build_ip_config_value, build_ci_custom_value, set_ssh_keys, set_network, cloud_init_values,
  cloud_init_built, build_cloud_init_values,
}
use ubuntu_vm_template_build.Proxmox.CloudInit.Accepted.{AreNics}
use ubuntu_vm_template_build.Proxmox.CloudInit.Network.{ip_key, build_cloud_init_values-network}

key_is_encoded : encode_proxmox_url_value (codes "ssh a+b") ≡ codes "ssh%20a%2Bb"
unfolding encode_proxmox_url_value query_escape escape_byte hex_digit is_unreserved utf8 replace_all
key_is_encoded = refl

percent_decode-encode_proxmox_url_value_example :
    percent_decode (encode_proxmox_url_value (codes "a+ b")) ≡ utf8 (codes "a+ b")
percent_decode-encode_proxmox_url_value_example =
    percent_decode-encode_proxmox_url_value (codes "a+ b")
      (ground arith, (ground arith, (ground arith, (ground arith, tt))))

abbrev config : CloudInitOptionsConfig
config = record {
  enabled = true;
  type = codes "NoCloud";
  upgrade = some false;
  user = codes "ubuntu";
  password = [];
  ssh_keys = codes "ssh k" ∷ [];
  dns = record { nameservers = codes "1.1.1.1" ∷ codes "9.9.9.9" ∷ []; search_domains = [] };
  network =
      record { index = pos 1; ipv4 = codes "dhcp "; gateway4 = []; ipv6 = []; gateway6 = [] }
      ∷ record {
        index = pos 0;
        ipv4 = codes "10.0.0.2/24";
        gateway4 = codes "10.0.0.1";
        ipv6 = [];
        gateway6 = [];
      }
      ∷ [];
  custom = record { user = []; network = []; meta = codes "local:m"; vendor = [] };
}

abbrev sent : Values
sent =
    (codes "ide2", codes "local:cloudinit")
    ∷ (codes "citype", codes "nocloud")
    ∷ (codes "ciupgrade", codes "0")
    ∷ (codes "ciuser", codes "ubuntu")
    ∷ (codes "sshkeys", codes "ssh%20k")
    ∷ (codes "nameserver", codes "1.1.1.1 9.9.9.9")
    ∷ (codes "ipconfig1", codes "ip=dhcp")
    ∷ (codes "ipconfig0", codes "ip=10.0.0.2/24,gw=10.0.0.1")
    ∷ (codes "cicustom", codes "meta=local:m")
    ∷ []

config_is_built : build_cloud_init_values (codes "local") config ≡ cloud_init_built sent
unfolding build_cloud_init_values cloud_init_values set_network set_ssh_keys build_ip_config_value
    build_ci_custom_value normalize normalize_nic validate check_cloud_init check_network is_seen
    some_empty is_other_than set set_text set_bool_value set_joined encode_proxmox_url_value
    query_escape escape_byte hex_digit is_unreserved utf8 replace_all trim_space trim_by
    trim_left_by trim_right_by is_space lower to_lower equal is_among join itoa digits digits_onto
config_is_built = refl

build_cloud_init_values-network_example :
    AreNics [] (normalize config).network
    × All
        (λ nic. get (ip_key nic.index) sent ≡ non_empty (build_ip_config_value nic))
        (normalize config).network
build_cloud_init_values-network_example =
    build_cloud_init_values-network (codes "local") config sent config_is_built
