-- ===== src/Offline/Build/Tests.antt =====
-- internal/offlineapt/offlineapt.go: a run of the whole build, and the theorems on it.
use ubuntu_vm_template_build.Base.{
  ◌≡◌, refl, Bool, true, false, List, [], ◌∷◌, ◌++◌, map, Option, none, some, codes, All, Result,
  ok, drop, if◌then◌else◌,
}
use ubuntu_vm_template_build.Text.{
  Text, split, split_from, join, is_among, equal, cut, trim_space, trim_by, trim_left_by,
  trim_right_by, is_space, has_prefix, contains, contains_any, mem_char, index, fields, fields_from,
  lower, to_lower,
}
use ubuntu_vm_template_build.Text.Order.{sort_by, insert_by, text_less}
use ubuntu_vm_template_build.Text.Path.{push, push_all, clean_parts, clean, join_path, base, dir}
use ubuntu_vm_template_build.Decimal.{digits, digits_onto}
use ubuntu_vm_template_build.Steps.{done, fail, ◌>>=◌, ◌>>◌, ask, expect, check, lift}
use ubuntu_vm_template_build.Offline.Config
use ubuntu_vm_template_build.Offline.Config.{
  Config, normalize, normalize_list, expand_suite, expand_suites, source_line, apt_sources,
  validate_apt_name, validate_apt_names,
}
use ubuntu_vm_template_build.Offline.Install.{Repository}
use ubuntu_vm_template_build.Offline.Uris.{
  PackageUri, package_uri_path, path_of_uri, parse_parts, parse_trimmed, parse_line, parse_lines,
  parse_package_uris, package_relative_paths,
}
use ubuntu_vm_template_build.Offline.Index.{
  ListEntry, PackageIndexRecord, unix_lines, split_blank, solid_parts, package_index_paragraphs,
  line_field, field_of_lines, package_index_field, normalize_package_filename, lookup_record,
  add_paragraph, add_paragraphs, add_entries, records_of_paths, selected_package_index_records,
}
use ubuntu_vm_template_build.Offline.Index.Selected.{
  IsSelected, selected_package_index_records-AllSelected,
}
use ubuntu_vm_template_build.Offline.Host.{Host, History, Sums}
use ubuntu_vm_template_build.Offline.Build.Files.{
  BuildError, must, make_dirs, write_to, make_all_dirs, prepare_apt_directories, copy_file,
  find_download, copy_selected_packages, require_file, require_files, component_files, source_files,
  package_paths, validate_repository,
}
use ubuntu_vm_template_build.Offline.Build.Metadata.{
  is_known_architecture, check_architectures, of_architecture, packages_text, packages_path,
  write_packages, sum_lines, release_text, read_index, write_release_file,
  write_trimmed_repository_metadata,
}
use ubuntu_vm_template_build.Offline.Build.{
  Urls, contains_one, check_apt_update_output, isolated_apt_options, run_apt_get,
  offline_repository_sources, list_packages, build_enabled, build_repository_with_codename,
}
use ubuntu_vm_template_build.Offline.Build.Safety.{AllSafe}
use ubuntu_vm_template_build.Offline.Build.Safety.Whole.{
  repo_dir_of, build_repository_with_codename-AllSafe,
}
use ubuntu_vm_template_build.Offline.Build.Complete.{
  IsComplete, build_repository_with_codename-IsComplete,
}

abbrev config : Config
config = record {
  apt_url = codes "http://h/u/";
  packages = codes "git" ∷ [];
  components = [];
  suites = [];
}

abbrev urls : Urls
urls = record { is_request_uri = λ uri. true; unescaped_path = λ uri. some (drop 8 uri) }

abbrev sums : Sums
sums = record {
  md5 = λ s. codes "a";
  sha1 = λ s. codes "b";
  sha256 = λ s. codes "c";
  sha512 = λ s. codes "d";
}

abbrev paragraph : Text
paragraph = codes "Package: git\nFilename: ./pool/git.deb\nArchitecture: all"

abbrev entries : List ListEntry
entries =
    record { name = codes "partial"; is_dir = true; content = none }
    ∷ record {
      name = codes "u_main_binary-amd64_Packages";
      is_dir = false;
      content = some (codes "\n" ++ (paragraph ++ codes "\r\n\n\nPackage: x\n"));
    }
    ∷ []

answer_of : Text → List Text → Option Text
unfolding is_among equal
answer_of name args =
    if is_among (codes "--print-uris") args
    then some (codes "'http://h/u/pool/git.deb' git.deb 1\n")
    else some (codes "ok")

is_repository : Text → Bool
unfolding equal
is_repository path = equal path (codes "/w/offline-apt-repo")

abbrev host : Host
host = record {
  output = λ h. answer_of;
  make_dirs = λ h path. true;
  write_file = λ h path content. true;
  stat = λ h path. some (is_repository path);
  list_dir = λ h path. some entries;
  read_file = λ h path. some (codes "x");
  open_file = λ h path. true;
  create_file = λ h path. true;
  copy_data = λ h source target. true;
  close_file = λ h path. true;
}

abbrev packages : List PackageUri
packages =
    record {
      uri = codes "http://h/u/pool/git.deb";
      download_name = codes "git.deb";
      relative_path = codes "pool/git.deb";
    }
    ∷ []

abbrev records : List PackageIndexRecord
records =
    record { relative_path = codes "pool/git.deb"; architecture = codes "all"; text = paragraph }
    ∷ []

records_selected : selected_package_index_records (some entries) packages ≡ ok records
unfolding selected_package_index_records records_of_paths add_entries add_paragraphs add_paragraph
    lookup_record normalize_package_filename package_index_field field_of_lines line_field
    package_index_paragraphs solid_parts split_blank unix_lines package_relative_paths sort_by
    insert_by split split_from cut clean clean_parts push_all push join has_prefix contains
    trim_space trim_by trim_left_by trim_right_by is_space to_lower lower equal is_among
records_selected = refl

selected_package_index_records-AllSelected_example :
    (map (λ r. r.relative_path) records ≡ package_relative_paths packages)
    × All (IsSelected entries) records
selected_package_index_records-AllSelected_example =
    selected_package_index_records-AllSelected entries packages records records_selected

abbrev run : Result BuildError Repository × History
run = build_repository_with_codename host urls sums config (codes "noble") (codes "/w") []

build_repository_with_codename-AllSafe_example : AllSafe (repo_dir_of (codes "/w")) run.1
build_repository_with_codename-AllSafe_example =
    build_repository_with_codename-AllSafe host urls sums config (codes "noble") (codes "/w")

abbrev built : Repository
built = record {
  path = codes "/w/offline-apt-repo";
  packages = codes "git" ∷ [];
  sources = record { suite = codes "offline"; components = codes "main" ∷ [] } ∷ [];
  package_files = codes "pool/git.deb" ∷ [];
}

config_enabled : Config.enabled (normalize config) ≡ true
unfolding Config.enabled normalize normalize_list trim_space trim_by trim_left_by trim_right_by
    is_space
config_enabled = refl

run_builds : run ≡ (ok built, run.1)
unfolding build_repository_with_codename normalize normalize_list Config.enabled Config.validate
    Config.check_packages validate_apt_names validate_apt_name build_enabled list_packages
    run_apt_get check_apt_update_output contains_one isolated_apt_options offline_repository_sources
    expand_suites expand_suite apt_sources source_line must make_dirs write_to make_all_dirs
    prepare_apt_directories copy_file find_download copy_selected_packages require_file
    require_files component_files source_files package_paths validate_repository
    is_known_architecture check_architectures of_architecture packages_text packages_path
    write_packages sum_lines release_text read_index write_release_file
    write_trimmed_repository_metadata done fail ◌>>=◌ ◌>>◌ ask expect check lift parse_package_uris
    parse_lines parse_line parse_trimmed parse_parts package_uri_path path_of_uri index fields
    fields_from base dir join_path contains_any mem_char digits digits_onto answer_of is_repository
    selected_package_index_records records_of_paths add_entries add_paragraphs add_paragraph
    lookup_record normalize_package_filename package_index_field field_of_lines line_field
    package_index_paragraphs solid_parts split_blank unix_lines package_relative_paths sort_by
    insert_by text_less split split_from cut clean clean_parts push_all push join has_prefix
    contains trim_space trim_by trim_left_by trim_right_by is_space to_lower lower equal is_among
run_builds = refl

build_repository_with_codename-IsComplete_example : IsComplete (normalize config) built run.1
build_repository_with_codename-IsComplete_example =
    build_repository_with_codename-IsComplete host urls sums config (codes "noble") (codes "/w")
      built run.1 config_enabled run_builds
