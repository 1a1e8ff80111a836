-- ===== src/Offline/Config.antt =====
-- internal/offlineapt/offlineapt.go: the configuration, its normal form and its checks. What
-- `url.ParseRequestURI` accepts is an argument.
pub mod Defects
use ubuntu_vm_template_build.Base.{
  ℕ, Bool, true, false, not, ◌&&◌, ◌||◌, List, [], ◌∷◌, ◌++◌, map, Option, none, some,
  if◌then◌else◌, is_empty, codes, ◌==◌,
}
use ubuntu_vm_template_build.Text.{
  Text, trim_space, trim_right_by, contains_any, contains, equal, join,
}

pub record Config : Type 0 where
  pub apt_url : Text
  pub packages : List Text
  pub components : List Text
  pub suites : List Text

abbrev pub default_suites : List Text
default_suites = codes "release" ∷ codes "updates" ∷ codes "security" ∷ []

abbrev pub default_components : List Text
default_components = codes "main" ∷ codes "restricted" ∷ codes "universe" ∷ codes "multiverse" ∷ []

unfoldable pub enabled : Config → Bool
enabled c =
    not (is_empty (trim_space c.apt_url))
    || not (is_empty c.packages)
    || not (is_empty c.components)
    || not (is_empty c.suites)

unfoldable pub normalize_list : List Text → List Text
normalize_list [] = []
normalize_list (value ∷ values) =
    let rest = normalize_list values in
    if is_empty (trim_space value) then rest else trim_space value ∷ rest

-- What an empty list stands for.
abbrev pub or_default : List Text → List Text → List Text
or_default [] default = default
or_default (value ∷ values) default = value ∷ values

unfoldable pub normalize : Config → Config
normalize c =
    let trimmed : Config = record {
      apt_url = trim_right_by (λ d. d == b'/') (trim_space c.apt_url);
      packages = normalize_list c.packages;
      components = normalize_list c.components;
      suites = normalize_list c.suites;
    } in
    if enabled trimmed
    then record trimmed {
      components = or_default trimmed.components default_components;
      suites = or_default trimmed.suites default_suites;
    }
    else trimmed

-- Which of the lists a name stands in.
pub data NameKind : Type 0 where
  component suite : NameKind

pub data ConfigError : Type 0 where
  no_url no_packages not_an_absolute_url empty_package : ConfigError
  package_with_whitespace : Text → ConfigError
  empty_name : NameKind → ConfigError
  bad_name : NameKind → Text → ConfigError

-- `validateAPTName`
unfoldable pub validate_apt_name : NameKind → Text → Option ConfigError
validate_apt_name kind value =
    if is_empty (trim_space value)
    then some (empty_name kind)
    else if contains_any value (codes " \t\r\n/\\")
        || equal value (codes ".")
        || equal value (codes "..")
        || contains value (codes "..")
    then some (bad_name kind value)
    else none

-- A loop that returns the first error, or goes on.
abbrev pub or_next : {E : Type 0} → Option E → Option E → Option E
or_next (some e) next = some e
or_next none next = next

unfoldable pub validate_apt_names : NameKind → List Text → Option ConfigError
validate_apt_names kind [] = none
validate_apt_names kind (value ∷ values) =
    or_next (validate_apt_name kind value) (validate_apt_names kind values)

unfoldable pub check_packages : List Text → Option ConfigError
check_packages [] = none
check_packages (pkg ∷ packages) =
    let rest = check_packages packages in
    if is_empty (trim_space pkg)
    then some empty_package
    else if contains_any pkg (codes " \t\r\n")
    then some (package_with_whitespace pkg)
    else rest

unfoldable pub validate : (Text → Bool) → Config → Option ConfigError
validate is_request_uri c =
    if not (enabled c)
    then none
    else if is_empty (trim_space c.apt_url)
    then some no_url
    else if is_empty c.packages
    then some no_packages
    else if not (is_request_uri c.apt_url)
    then some not_an_absolute_url
    else or_next (check_packages c.packages)
        (or_next (validate_apt_names component c.components) (validate_apt_names suite c.suites))

-- `expandSuites`
unfoldable pub expand_suite : Text → Text → Text
expand_suite codename name =
    if equal name (codes "release")
    then codename
    else if equal name (codes "updates")
    then codename ++ codes "-updates"
    else if equal name (codes "security")
    then codename ++ codes "-security"
    else if equal name (codes "backports")
    then codename ++ codes "-backports"
    else name

unfoldable pub expand_suites : List Text → Text → List Text
expand_suites suites codename = map (expand_suite codename) suites

abbrev pub ubuntu_archive_keyring : Text
ubuntu_archive_keyring = codes "/usr/share/keyrings/ubuntu-archive-keyring.gpg"

-- The file that `writeAPTSources` writes.
unfoldable pub source_line : Config → Text → Text
source_line cfg suite_name =
    codes "deb [signed-by="
    ++ (ubuntu_archive_keyring
        ++ (codes "] "
            ++ (cfg.apt_url
                ++ (codes " " ++ (suite_name ++ (codes " " ++ join cfg.components (codes " ")))))))

unfoldable pub apt_sources : Config → List Text → Text
apt_sources cfg suites = join (map (source_line cfg) suites) (codes "\n") ++ codes "\n"
