-- ===== src/Offline/Config/Defects.antt =====
-- internal/offlineapt/offlineapt.go: the errors of the configuration's check tell of its defects.
pub mod Truthful
use ubuntu_vm_template_build.Base.{
  ℕ, ◌≡◌, ◌⊎◌, sym, ap, ◌∙◌, subst, OneOf-All, Bool, true, false, not, ◌||◌, List, [], Option,
  is_empty, codes, OneOf, arith, Option-cases,
}
use ubuntu_vm_template_build.Text.{Text, trim_space, contains_any, contains, equal}
use ubuntu_vm_template_build.Offline.Config.{
  Config, ConfigError, NameKind, component, suite, no_url, no_packages, not_an_absolute_url,
  empty_package, package_with_whitespace, empty_name, bad_name, enabled, validate, or_next,
}

pub names_of : NameKind → Config → List Text
names_of component c = c.components
names_of suite c = c.suites

abbrev pub is_bad_name : Text → Bool
is_bad_name value =
    contains_any value (codes " \t\r\n/\\")
    || equal value (codes ".")
    || equal value (codes "..")
    || contains value (codes "..")

-- One of the values fails the test.
pub Some : (Text → Bool) → List Text → Type 0
Some p values = (v : Text) × OneOf v values × (p v ≡ true)

abbrev pub is_blank : Text → Bool
is_blank v = is_empty (trim_space v)

-- What an error tells of a configuration.
pub IsDefect : (Text → Bool) → ConfigError → Config → Type 0
IsDefect is_request_uri no_url c = is_blank c.apt_url ≡ true
IsDefect is_request_uri no_packages c = c.packages ≡ []
IsDefect is_request_uri not_an_absolute_url c = is_request_uri c.apt_url ≡ false
IsDefect is_request_uri empty_package c = Some is_blank c.packages
IsDefect is_request_uri (package_with_whitespace p) c =
    OneOf p c.packages × (contains_any p (codes " \t\r\n") ≡ true)
IsDefect is_request_uri (empty_name kind) c = Some is_blank (names_of kind c)
IsDefect is_request_uri (bad_name kind v) c = OneOf v (names_of kind c) × (is_bad_name v ≡ true)

-- A defect of the names of one kind, and of the packages.
NameDefect : NameKind → ConfigError → List Text → Type 0
NameDefect kind e values =
    ((e ≡ empty_name kind) × Some is_blank values)
    ⊎ ((v : Text) × (e ≡ bad_name kind v) × OneOf v values × (is_bad_name v ≡ true))

PackageDefect : ConfigError → List Text → Type 0
PackageDefect e packages =
    ((e ≡ empty_package) × Some is_blank packages)
    ⊎ ((p : Text) × (e ≡ package_with_whitespace p)
        × OneOf p packages
        × (contains_any p (codes " \t\r\n") ≡ true))
