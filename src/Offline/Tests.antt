-- ===== src/Offline/Tests.antt =====
-- internal/offlineapt/offlineapt.go: runs of the code, and the theorems at concrete inputs.
use ubuntu_vm_template_build.Base.{
  ◌≡◌, refl, Bool, true, List, [], ◌∷◌, ◌++◌, map, Option, some, codes, All, ok, err, drop,
}
use ubuntu_vm_template_build.Text.{
  Text, split, split_from, join, is_among, equal, cut, replace_all, trim_space, trim_by,
  trim_left_by, trim_right_by, is_space, has_prefix, contains, contains_any, mem_char, index,
  fields, fields_from,
}
use ubuntu_vm_template_build.Text.Order.{Ascending, sort_by, insert_by, text_less}
use ubuntu_vm_template_build.Text.Path.{up, push, push_all, clean_parts, clean, base}
use ubuntu_vm_template_build.Offline.Quote.{shell_quote, shell_join, command_string}
use ubuntu_vm_template_build.Offline.Quote.ReadBack.{read_words, read_words-command_string}
use ubuntu_vm_template_build.Offline.Config
use ubuntu_vm_template_build.Offline.Config.{
  Config, package_with_whitespace, component, suite, normalize_list, expand_suite, expand_suites,
  source_line, apt_sources, validate_apt_name, validate_apt_names,
}
use ubuntu_vm_template_build.Offline.Install
use ubuntu_vm_template_build.Offline.Install.{
  InstallConfig, Repository, RepositorySource, written, install_files, write_install_config_dir,
  install_required_index_paths, check_sources, install_late_commands,
}
use ubuntu_vm_template_build.Offline.Install.Sources.{source_words}
use ubuntu_vm_template_build.Offline.Install.Files.{write_install_config_dir-split}
use ubuntu_vm_template_build.Offline.Uris
use ubuntu_vm_template_build.Offline.Uris.{
  PackageUri, package_uri_path, path_of_uri, parse_parts, parse_trimmed, parse_line, parse_lines,
  parse_package_uris, package_relative_paths,
}
use ubuntu_vm_template_build.Offline.Uris.Paths.{IsPoolPath}
use ubuntu_vm_template_build.Offline.Uris.Ordered.{parse_package_uris-AllPoolPaths}

abbrev two_args : List Text
two_args = codes "it's" ∷ codes "" ∷ []

quoted_args : shell_join two_args ≡ codes "'it'\"'\"'s' ''"
unfolding shell_join shell_quote join replace_all
quoted_args = refl

read_words-command_string_example :
    (read_words (command_string (codes "echo") two_args) ≡ some (codes "echo" ∷ two_args))
    × (read_words (shell_join two_args) ≡ some two_args)
read_words-command_string_example = read_words-command_string (codes "echo") two_args

abbrev installation : InstallConfig
installation = record {
  packages = codes "git" ∷ codes "curl" ∷ [];
  sources = record { suite = codes "offline"; components = codes "main" ∷ [] } ∷ [];
}

installation_written : write_install_config_dir installation ≡ written (install_files installation)
unfolding write_install_config_dir Install.enabled Install.validate Install.check_packages
    check_sources validate_apt_name validate_apt_names trim_space trim_by trim_left_by trim_right_by
    is_space contains_any mem_char equal contains has_prefix
installation_written = refl

write_install_config_dir-split_example :
    (split (install_files installation).packages b'\n' ≡ installation.packages ++ [] ∷ [])
    × (map (λ line. split line b' ') (split (install_files installation).sources_list b'\n')
        ≡ map source_words installation.sources ++ ([] ∷ []) ∷ [])
    × (split (install_files installation).required_indexes b'\n'
        ≡ install_required_index_paths installation ++ [] ∷ [])
write_install_config_dir-split_example =
    write_install_config_dir-split installation (install_files installation) installation_written

-- The path of a URI on a host with a name of one letter.
abbrev path_on_host : Text → Option Text
path_on_host uri = some (drop 8 uri)

abbrev printed : Text
printed =
    codes
      "Need to get 2 B\n'http://h/u/pool/main/g/../g/git.deb' git.deb 1\n'http://h/u/pool/c.deb' c.deb 1\n"

abbrev two_packages : List PackageUri
two_packages =
    record {
      uri = codes "http://h/u/pool/c.deb";
      download_name = codes "c.deb";
      relative_path = codes "pool/c.deb";
    }
    ∷ record {
      uri = codes "http://h/u/pool/main/g/../g/git.deb";
      download_name = codes "git.deb";
      relative_path = codes "pool/main/g/git.deb";
    }
    ∷ []

printed_packages : parse_package_uris path_on_host printed ≡ ok two_packages
unfolding parse_package_uris parse_lines parse_line parse_trimmed parse_parts package_uri_path
    path_of_uri split split_from trim_space trim_by trim_left_by trim_right_by is_space cut index
    has_prefix contains clean clean_parts push_all push up equal join base fields fields_from
    is_among sort_by insert_by text_less
printed_packages = refl

parse_package_uris-AllPoolPaths_example :
    All (λ pkg. IsPoolPath pkg.relative_path) two_packages
    × Ascending (λ pkg. pkg.relative_path) two_packages
parse_package_uris-AllPoolPaths_example =
    parse_package_uris-AllPoolPaths path_on_host printed two_packages printed_packages

-- A path that leaves the pool is refused.
outside :
    parse_package_uris path_on_host (codes "'http://h/u/pool/../../etc/x' x")
    ≡ err (Uris.unsafe_path (codes "http://h/u/pool/../../etc/x") (codes "../etc/x"))
unfolding parse_package_uris parse_lines parse_line parse_trimmed parse_parts package_uri_path
    path_of_uri split split_from trim_space trim_by trim_left_by trim_right_by is_space cut index
    has_prefix contains clean clean_parts push_all push up equal join
outside = refl

abbrev config : Config
config = record {
  apt_url = codes "http://h/u/";
  packages = codes "git" ∷ codes " c d " ∷ [];
  components = codes "main" ∷ [];
  suites = codes "release" ∷ [];
}

abbrev accepts_all : Text → Bool
accepts_all uri = true

config_refused : Config.validate accepts_all config ≡ some (package_with_whitespace (codes " c d "))
unfolding Config.validate Config.enabled Config.check_packages trim_space trim_by trim_left_by
    trim_right_by is_space contains_any mem_char
config_refused = refl
