-- ===== src/Offline/Build/Complete.antt =====
-- internal/offlineapt/offlineapt.go: a repository that a build returns is complete.
use ubuntu_vm_template_build.Base.{
  ◌≡◌, refl, subst, Bool, true, false, not, List, [], ◌∷◌, Option, none, some, is_empty, OneOf, All,
  All-map, inl, inr, Result, ok, err, arith, Option-cases, if◌then◌else◌,
}
use ubuntu_vm_template_build.Text.{
  Text, trim_space, equal, contains_any, contains, has_prefix, mem_char, trim_by, trim_left_by,
  trim_right_by, is_space,
}
use ubuntu_vm_template_build.Steps.{done, fail, ask}
use ubuntu_vm_template_build.Steps.Triple.{
  Post, Triple, Triple->>=, Triple->>, Triple-done, Triple-fail, Triple-if, Triple-ask,
  Triple-check, Triple-weaken,
}
use ubuntu_vm_template_build.Offline.Config
use ubuntu_vm_template_build.Offline.Config.{Config, ConfigError, normalize, or_next}
use ubuntu_vm_template_build.Offline.Install
use ubuntu_vm_template_build.Offline.Install.{Repository, InstallConfig, install_config}
use ubuntu_vm_template_build.Offline.Host.{Host, Event, History, Sums, stated}
use ubuntu_vm_template_build.Offline.Build.Files.{
  Build, BuildError, a_file, require_file, require_files, a_directory, validate_repository,
  source_files, package_paths, no_path, no_sources, no_package_files, bad_config, no_codename,
}
use ubuntu_vm_template_build.Offline.Build.{
  Urls, build_enabled, build_repository_with_codename, offline_repository_sources,
}

-- Each path has been found to be a file.
pub Found : List Text → History → Type 0
Found paths h = All (λ path. OneOf (stated path (some false)) h) paths

-- Nothing is known.
abbrev Any : History → Type 0
Any h = Unit

Any-step : {A : Type 0} (m : Build A) → Triple Any m (λ _. Any) Any
Any-step {A = A} m = record { runs = λ h _. any (m h) }
  where
    any : (o : Result BuildError A × History) → Post (λ _. Any) Any o
    any (ok a, h) = tt
    any (err e, h) = tt

module _ (P : History → Type 0) (lasts : (e : Event) (h : History) → P h → P (e ∷ h))
    (host : Host) where
  a_file-Found :
      (path : Text) (info : Option Bool)
      → Triple
          (λ h. P h × OneOf (stated path info) h)
          (a_file path info)
          (λ _ h. P h × OneOf (stated path (some false)) h)
          Any
  a_file-Found path none = Triple-fail _ (λ h k. tt)
  a_file-Found path (some true) = Triple-fail _ (λ h k. tt)
  a_file-Found path (some false) = Triple-done tt (λ h k. k)

  require_file-Found :
      (path : Text)
      → Triple P (require_file host path) (λ _ h. P h × OneOf (stated path (some false)) h) Any
  unfolding require_file
  require_file-Found path =
      Triple->>= {Q = λ info h. P h × OneOf (stated path info) h}
        (Triple-ask _ _ (λ h info k. (lasts _ h k, inl refl))) (a_file-Found path)

require_files-Found :
    (P : History → Type 0) (lasts : (e : Event) (h : History) → P h → P (e ∷ h)) (host : Host)
    (paths : List Text)
    → Triple P (require_files host paths) (λ _ h. P h × Found paths h) Any
unfolding require_files Found
require_files-Found P lasts host [] = Triple-done tt (λ h k. (k, tt))
require_files-Found P lasts host (path ∷ paths) =
    Triple->> (require_file-Found P lasts host path) λ _.
      Triple-weaken (λ h k. k) (λ a h k. (k.0.0, (k.0.1, k.1))) (λ h k. k)
        (require_files-Found (λ h. P h × OneOf (stated path (some false)) h)
          (λ e h k. (lasts e h k.0, inr k.1)) host paths)

Found-lasts : (paths : List Text) (e : Event) (h : History) → Found paths h → Found paths (e ∷ h)
unfolding Found
Found-lasts paths e h k = All-map (λ path m. inr m) paths k

module _ (host : Host) where
  validate_repository-Found :
      (repo : Repository)
      → Triple Any
          (validate_repository host repo)
          (λ _ h.
            Found (source_files repo.path repo.sources) h
            × Found (package_paths repo.path repo.package_files) h)
          Any
  unfolding validate_repository
  validate_repository-Found repo =
      let files = source_files repo.path repo.sources in
      Triple->> (Any-step (if is_empty (trim_space repo.path) then fail no_path else done tt)) λ _.
        Triple->>= (Any-step (ask (λ h. host.stat h repo.path) (stated repo.path))) λ info.
          Triple->> (Any-step (a_directory repo.path info)) λ _.
            Triple->> (Any-step (if is_empty repo.sources then fail no_sources else done tt)) λ _.
              Triple->> (require_files-Found Any (λ e h k. tt) host files) λ _.
                Triple->> {Q = λ _ h. Found files h}
                  (Triple-if (is_empty repo.package_files)
                    (λ _. Triple-fail no_package_files (λ h k. tt))
                    (λ _. Triple-done tt (λ h k. k.1)))
                  λ _.
                    require_files-Found (Found files) (Found-lasts files) host
                      (package_paths repo.path repo.package_files)

-- What a repository is when a build has returned it.
pub record IsComplete (cfg : Config) (repo : Repository) (h : History) : Type 0 where
  pub packages : repo.packages ≡ cfg.packages
  pub installable : Install.validate (install_config repo) ≡ none
  pub indexes_found : Found (source_files repo.path repo.sources) h
  pub packages_found : Found (package_paths repo.path repo.package_files) h

-- The checks of the packages that the configuration and the installation make are the same.
check_packages-none :
    (packages : List Text)
    → Config.check_packages packages ≡ none
    → Install.check_packages packages ≡ none
unfolding Config.check_packages Install.check_packages
check_packages-none [] h = refl
check_packages-none (pkg ∷ packages) h = ground (arith, check_packages-none packages)

validate-check_packages :
    (is_request_uri : Text → Bool) (cfg : Config)
    → Config.enabled cfg ≡ true
    → Config.validate is_request_uri cfg ≡ none
    → (Config.check_packages cfg.packages ≡ none) × (is_empty cfg.packages ≡ false)
unfolding Config.validate
validate-check_packages is_request_uri cfg on h =
    elim (Option-cases (Config.check_packages cfg.packages)) [
      | inl good ↦ (good, ground arith)
      | inr (e, bad) ↦ absurd (ground arith)
    ]

-- The installation from the built repository passes its own checks.
install_config-valid :
    (path : Text) (packages files : List Text)
    → is_empty packages ≡ false
    → Install.check_packages packages ≡ none
    → Install.validate (
        install_config (record {
          path = path;
          packages = packages;
          sources = offline_repository_sources;
          package_files = files;
        }))
      ≡ none
unfolding Install.validate Install.enabled Install.copy_sources install_config
    offline_repository_sources Install.check_sources Config.validate_apt_name
    Config.validate_apt_names contains_any contains mem_char equal has_prefix trim_space trim_by
    trim_left_by trim_right_by is_space
install_config-valid path packages files full good = rw (full, good) refl

build_enabled-IsComplete :
    (host : Host) (urls : Urls) (sums : Sums) (cfg : Config) (codename work_dir : Text)
    → Config.check_packages cfg.packages ≡ none
    → is_empty cfg.packages ≡ false
    → Triple Any (build_enabled host urls sums cfg codename work_dir) (IsComplete cfg) Any
unfolding build_enabled
build_enabled-IsComplete host urls sums cfg codename work_dir good full =
    Triple->> (Any-step _) λ _. Triple->> (Any-step _) λ _. Triple->>= (Any-step _) λ packages.
      Triple->> (Any-step _) λ _. Triple->> (Any-step _) λ _. Triple->> (Any-step _) λ _.
        Triple->> (validate_repository-Found host _) λ _. Triple-done _ λ h found. record {
          packages = refl;
          installable =
              install_config-valid _ cfg.packages _ full (check_packages-none cfg.packages good);
          indexes_found = found.0;
          packages_found = found.1;
        }

-- A repository that a build of an enabled configuration returns has the configuration's packages,
-- makes an installation that passes its own checks, and every file of its indexes and of its
-- packages has been found in it.
pub build_repository_with_codename-IsComplete :
    (host : Host) (urls : Urls) (sums : Sums) (config : Config) (codename work_dir : Text)
    (repo : Repository) (h : History)
    → Config.enabled (normalize config) ≡ true
    → build_repository_with_codename host urls sums config codename work_dir [] ≡ (ok repo, h)
    → IsComplete (normalize config) repo h
unfolding build_repository_with_codename
build_repository_with_codename-IsComplete host urls sums config codename work_dir repo h on
      returned =
    let cfg = normalize config in
    let run = build_repository_with_codename host urls sums config codename work_dir in
    let t : Triple Any run (IsComplete cfg) Any =
      Triple-if (not (Config.enabled cfg)) (λ off. absurd (ground arith))
        λ _.
          Triple->> {Q = λ _ h. Config.validate urls.is_request_uri cfg ≡ none}
            (Triple-check bad_config (Config.validate urls.is_request_uri cfg) (λ valid h k. valid)
              (λ h k. tt))
            λ _.
              Triple-if (is_empty (trim_space codename)) (λ _. Triple-fail no_codename (λ h k. tt))
                λ _. record {
                  runs = λ h valid.
                      let (good, full) = validate-check_packages urls.is_request_uri cfg on valid in
                      (build_enabled-IsComplete host urls sums cfg codename work_dir good full).runs
                        h tt;
                } in
    subst (Post (IsComplete cfg) Any) returned (t.runs [] tt)
