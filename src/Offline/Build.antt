-- ===== src/Offline/Build.antt =====
-- internal/offlineapt/offlineapt.go: `BuildRepositoryWithRunner` and what it calls.
pub mod Metadata
pub mod Files
pub mod Safety
pub mod Complete
pub mod Returned
mod Tests
use ubuntu_vm_template_build.Base.{
  Bool, true, false, not, ◌||◌, List, [], ◌∷◌, ◌++◌, map, Option, none, some, if◌then◌else◌,
  is_empty, codes, Result, ok, err,
}
use ubuntu_vm_template_build.Text.{Text, trim_space, contains, to_lower, equal, cut, split}
use ubuntu_vm_template_build.Text.Order.{sort_by}
use ubuntu_vm_template_build.Text.Path.{join_path}
use ubuntu_vm_template_build.Steps.{Step, done, fail, ◌>>=◌, ◌>>◌, ask, expect, check, lift}
use ubuntu_vm_template_build.Offline.Config.{
  Config, ConfigError, enabled, normalize, validate, expand_suites, apt_sources,
}
use ubuntu_vm_template_build.Offline.Install.{Repository, RepositorySource}
use ubuntu_vm_template_build.Offline.Uris.{
  PackageUri, UriError, parse_package_uris, package_relative_paths,
}
use ubuntu_vm_template_build.Offline.Index.{IndexError}
use ubuntu_vm_template_build.Offline.Host.{Host, Event, Sums, ran}
use ubuntu_vm_template_build.Offline.Build.Metadata.{write_trimmed_repository_metadata}
use ubuntu_vm_template_build.Offline.Build.Files.{
  Build, BuildError, bad_config, no_codename, command_failed, not_authenticated, bad_uri, no_uris,
  copy_selected_packages, prepare_apt_directories, write_to, validate_repository,
}

-- The markers of `checkAPTUpdateOutput`.
abbrev pub markers : List Text
markers =
    codes "Failed to fetch"
    ∷ codes "Some index files failed to download"
    ∷ codes "NO_PUBKEY"
    ∷ codes "EXPKEYSIG"
    ∷ codes "BADSIG"
    ∷ codes "The following signatures couldn't be verified"
    ∷ codes "is not signed"
    ∷ codes "GPG error"
    ∷ []

unfoldable pub contains_one : Text → List Text → Bool
contains_one text [] = false
contains_one text (marker ∷ rest) = contains text marker || contains_one text rest

unfoldable pub check_apt_update_output : Text → Option BuildError
check_apt_update_output output =
    if contains_one output markers then some (not_authenticated (trim_space output)) else none

unfoldable pub isolated_apt_options : Text → Text → List Text
isolated_apt_options apt_root download_dir =
    codes "-o"
    ∷ (codes "Dir=" ++ apt_root)
    ∷ codes "-o"
    ∷ codes "Dir::Etc=etc/apt"
    ∷ codes "-o"
    ∷ codes "Dir::Etc::sourcelist=sources.list"
    ∷ codes "-o"
    ∷ codes "Dir::Etc::sourceparts=sources.list.d"
    ∷ codes "-o"
    ∷ codes "Dir::Etc::trusted=trusted.gpg"
    ∷ codes "-o"
    ∷ codes "Dir::Etc::trustedparts=trusted.gpg.d"
    ∷ codes "-o"
    ∷ codes "Dir::State=var/lib/apt"
    ∷ codes "-o"
    ∷ (codes "Dir::State::status=" ++ join_path (apt_root ∷ codes "var/lib/dpkg/status" ∷ []))
    ∷ codes "-o"
    ∷ codes "Dir::Cache=var/cache/apt"
    ∷ codes "-o"
    ∷ (codes "Dir::Cache::archives=" ++ download_dir)
    ∷ codes "-o"
    ∷ codes "APT::Architecture=amd64"
    ∷ codes "-o"
    ∷ codes "Debug::NoLocking=true"
    ∷ codes "-o"
    ∷ codes "Acquire::Languages=none"
    ∷ codes "-o"
    ∷ codes "Acquire::GzipIndexes=false"
    ∷ codes "-o"
    ∷ codes "Acquire::IndexTargets::deb::DEP-11::DefaultEnabled=false"
    ∷ codes "-o"
    ∷ codes "Acquire::IndexTargets::deb::CNF::DefaultEnabled=false"
    ∷ []

abbrev pub apt_get : Text
apt_get = codes "apt-get"

unfoldable pub run_apt_get : Host → List Text → Build Text
run_apt_get host args = do
  answer ← ask (λ h. host.output h apt_get args) (ran apt_get args)
  expect (command_failed args) answer

-- What `url.ParseRequestURI` accepts, and the path of a URI.
pub record Urls : Type 0 where
  pub is_request_uri : Text → Bool
  pub unescaped_path : Text → Option Text

unfoldable pub offline_repository_sources : List RepositorySource
offline_repository_sources = record { suite = codes "offline"; components = codes "main" ∷ [] } ∷ []

abbrev pub no_repository : Repository
no_repository = record { path = []; packages = []; sources = []; package_files = [] }

-- From the list of sources to the packages that apt would download.
unfoldable pub list_packages : Host → Urls → Config → List Text → Build (List PackageUri)
list_packages host urls cfg options = do
  update_output ← run_apt_get host (options ++ codes "update" ∷ [])
  check (λ e. e) (check_apt_update_output update_output)
  uri_output ←
      run_apt_get host
        (options ++ (codes "-y" ∷ codes "--print-uris" ∷ codes "install" ∷ cfg.packages))
  packages ← lift bad_uri (parse_package_uris urls.unescaped_path uri_output)
  if is_empty packages then fail no_uris else done packages

-- The part of `buildRepositoryWithCodename` behind its checks of the configuration.
unfoldable pub build_enabled : Host → Urls → Sums → Config → Text → Text → Build Repository
build_enabled host urls sums cfg codename work_dir = do
  let suites = expand_suites cfg.suites codename
  let repo_dir = join_path (work_dir ∷ codes "offline-apt-repo" ∷ [])
  let apt_root = join_path (work_dir ∷ codes "offline-apt-work" ∷ [])
  let download_dir = join_path (work_dir ∷ codes "offline-apt-downloads" ∷ [])
  let options = isolated_apt_options apt_root download_dir
  prepare_apt_directories host download_dir apt_root
  write_to host (join_path (apt_root ∷ codes "etc/apt/sources.list" ∷ [])) (apt_sources cfg suites)
  packages ← list_packages host urls cfg options
  run_apt_get host
      (options ++ (codes "-y" ∷ codes "--download-only" ∷ codes "install" ∷ cfg.packages))
  copy_selected_packages host download_dir repo_dir packages
  write_trimmed_repository_metadata host sums apt_root repo_dir packages
  let repo : Repository = record {
    path = repo_dir;
    packages = cfg.packages;
    sources = offline_repository_sources;
    package_files = package_relative_paths packages;
  }
  validate_repository host repo
  done repo

unfoldable pub build_repository_with_codename :
    Host → Urls → Sums → Config → Text → Text → Build Repository
build_repository_with_codename host urls sums config codename work_dir =
    let cfg = normalize config in
    if not (enabled cfg)
    then done no_repository
    else check bad_config (validate urls.is_request_uri cfg)
      >> (if is_empty (trim_space codename)
          then fail no_codename
          else build_enabled host urls sums cfg codename work_dir)
