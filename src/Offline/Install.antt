-- ===== src/Offline/Install.antt =====
-- internal/offlineapt/offlineapt.go: the installation of the packages on the target, from the
-- repository on the ISO.
pub mod Plain
pub mod Sources
pub mod Files
use ubuntu_vm_template_build.Base.{
  Bool, true, false, not, ◌||◌, List, [], ◌∷◌, ◌++◌, map, Option, none, some, if◌then◌else◌,
  is_empty, codes,
}
use ubuntu_vm_template_build.Text.{Text, trim_space, contains_any, join}
use ubuntu_vm_template_build.Offline.Quote.{shell_quote}
use ubuntu_vm_template_build.Offline.Config.{
  ConfigError, component, suite, validate_apt_name, validate_apt_names,
}

pub record RepositorySource : Type 0 where
  pub suite : Text
  pub components : List Text

pub record InstallConfig : Type 0 where
  pub packages : List Text
  pub sources : List RepositorySource

pub record Repository : Type 0 where
  pub path : Text
  pub packages : List Text
  pub sources : List RepositorySource
  pub package_files : List Text

unfoldable pub copy_sources : List RepositorySource → List RepositorySource
copy_sources [] = []
copy_sources (source ∷ sources) =
    record { suite = source.suite; components = source.components } ∷ copy_sources sources

-- `Repository.InstallConfig`
unfoldable pub install_config : Repository → InstallConfig
install_config r = record { packages = r.packages; sources = copy_sources r.sources }

unfoldable pub enabled : InstallConfig → Bool
enabled c = not (is_empty c.packages)

pub data InstallError : Type 0 where
  no_sources : InstallError
  bad_package : Text → InstallError
  no_components : Text → InstallError
  bad_apt_name : ConfigError → InstallError

abbrev pub or_else :
    {E : Type 0} → (E → InstallError) → Option E → Option InstallError → Option InstallError
or_else wrap (some e) next = some (wrap e)
or_else wrap none next = next

unfoldable pub check_packages : List Text → Option InstallError
check_packages [] = none
check_packages (pkg ∷ packages) =
    let rest = check_packages packages in
    if is_empty (trim_space pkg) || contains_any pkg (codes " \t\r\n")
    then some (bad_package pkg)
    else rest

unfoldable pub check_sources : List RepositorySource → Option InstallError
check_sources [] = none
check_sources (source ∷ sources) =
    let rest =
      or_else bad_apt_name (validate_apt_names component source.components)
        (check_sources sources) in
    or_else bad_apt_name (validate_apt_name suite source.suite)
      (if is_empty source.components then some (no_components source.suite) else rest)

unfoldable pub validate : InstallConfig → Option InstallError
validate c =
    if not (enabled c)
    then none
    else if is_empty c.sources
    then some no_sources
    else or_else (λ e. e) (check_packages c.packages) (check_sources c.sources)

abbrev pub iso_repo_path : Text
iso_repo_path = codes "/ubuntu-vm-template-builder/offline-apt"

abbrev pub iso_install_config_path : Text
iso_install_config_path = codes "/ubuntu-vm-template-builder/offline-apt-install"

abbrev pub iso_install_script_path : Text
iso_install_script_path = codes "/ubuntu-vm-template-builder/scripts/install-offline-packages.sh"

unfoldable pub install_late_commands : InstallConfig → List Text
install_late_commands c =
    if enabled c
    then join
        (codes "sh"
          ∷ shell_quote (codes "/cdrom" ++ iso_install_script_path)
          ∷ shell_quote (codes "/target")
          ∷ shell_quote (codes "/cdrom" ++ iso_repo_path)
          ∷ shell_quote (codes "/cdrom" ++ iso_install_config_path)
          ∷ [])
        (codes " ")
      ∷ []
    else []

abbrev pub guest_repo_path : Text
guest_repo_path = codes "/var/lib/ubuntu-vm-template-builder/offline-apt"

unfoldable pub install_source_line : RepositorySource → Text
install_source_line source =
    codes "deb [trusted=yes check-date=no] file:"
    ++ (guest_repo_path
        ++ (codes " " ++ (source.suite ++ (codes " " ++ join source.components (codes " ")))))

unfoldable pub install_source_lines : InstallConfig → List Text
install_source_lines c = map install_source_line c.sources

-- `dists/<suite>/<component>/binary-<architecture>/Packages`
abbrev pub index_path : Text → Text → Text → Text
index_path suite_name component_name architecture =
    codes "dists/"
    ++ (suite_name
        ++ (codes "/"
            ++ (component_name ++ (codes "/binary-" ++ (architecture ++ codes "/Packages")))))

abbrev pub release_path : Text → Text
release_path suite_name = codes "dists/" ++ (suite_name ++ codes "/Release")

unfoldable pub component_index_paths : Text → List Text → List Text
component_index_paths suite_name [] = []
component_index_paths suite_name (name ∷ names) =
    index_path suite_name name (codes "amd64")
    ∷ index_path suite_name name (codes "all")
    ∷ component_index_paths suite_name names

-- The loop of `installRequiredIndexPaths`, which `ValidateEmbeddedRepository` has as well.
unfoldable pub source_index_paths : List RepositorySource → List Text
source_index_paths [] = []
source_index_paths (source ∷ sources) =
    release_path source.suite ∷ component_index_paths source.suite source.components
    ++ source_index_paths sources

unfoldable pub install_required_index_paths : InstallConfig → List Text
install_required_index_paths c = source_index_paths c.sources

-- The three files that `WriteInstallConfigDir` writes.
unfoldable pub lines_file : List Text → Text
lines_file lines = join lines (codes "\n") ++ codes "\n"

pub record InstallFiles : Type 0 where
  pub packages : Text
  pub sources_list : Text
  pub required_indexes : Text

unfoldable pub install_files : InstallConfig → InstallFiles
install_files c = record {
  packages = lines_file c.packages;
  sources_list = lines_file (install_source_lines c);
  required_indexes = lines_file (install_required_index_paths c);
}

-- What `WriteInstallConfigDir` leaves in the directory, or its error.
pub data InstallDir : Type 0 where
  not_written : InstallDir
  refused : InstallError → InstallDir
  written : InstallFiles → InstallDir

abbrev pub unless_error : Option InstallError → InstallFiles → InstallDir
unless_error none files = written files
unless_error (some e) files = refused e

unfoldable pub write_install_config_dir : InstallConfig → InstallDir
write_install_config_dir c =
    if enabled c then unless_error (validate c) (install_files c) else not_written
