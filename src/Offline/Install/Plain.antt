-- ===== src/Offline/Install/Plain.antt =====
-- internal/offlineapt/offlineapt.go: the names that the checks let through.
use ubuntu_vm_template_build.Base.{
  ◌≡◌, ◌≢◌, refl, inl, inr, false, List, [], ◌∷◌, none, is_empty, is_empty-ne, codes, All,
  Bool-cases, Option-cases, arith,
}
use ubuntu_vm_template_build.Text.{Text, contains_any, mem_char}
use ubuntu_vm_template_build.Text.Split.{Lacks, contains_any-Lacks}
use ubuntu_vm_template_build.Offline.Config.{
  NameKind, component, suite, validate_apt_name, validate_apt_names,
}
use ubuntu_vm_template_build.Offline.Install.{RepositorySource, check_sources}

-- None of the characters that separate the parts of a line, of a path or of a file.
pub IsPlain : Text → Type 0
IsPlain value = contains_any value (codes " \t\r\n/\\") ≡ false

pub validate_apt_name-IsPlain :
    (kind : NameKind) (value : Text) → validate_apt_name kind value ≡ none → IsPlain value
unfolding validate_apt_name IsPlain
validate_apt_name-IsPlain kind value h = ground arith

pub validate_apt_names-IsPlain :
    (kind : NameKind) (values : List Text)
    → validate_apt_names kind values ≡ none
    → All IsPlain values
unfolding validate_apt_names
validate_apt_names-IsPlain kind [] h = tt
validate_apt_names-IsPlain kind (value ∷ values) h =
    elim (Option-cases (validate_apt_name kind value)) [
      | inl good ↦ (
        validate_apt_name-IsPlain kind value good,
        validate_apt_names-IsPlain kind values (rw good at h),
      )
      | inr (e, bad) ↦ absurd (cc (rw bad at h))
    ]

pub IsPlain-Lacks : (value : Text) → IsPlain value → Lacks b' ' value × Lacks b'\n' value
unfolding IsPlain mem_char
IsPlain-Lacks value h =
    (contains_any-Lacks value _ b' ' refl h, contains_any-Lacks value _ b'\n' refl h)

pub record IsSource (source : RepositorySource) : Type 0 where
  pub suite : IsPlain source.suite
  pub has_components : source.components ≢ []
  pub components : All IsPlain source.components

pub check_sources-IsSource :
    (sources : List RepositorySource) → check_sources sources ≡ none → All IsSource sources
unfolding check_sources
check_sources-IsSource [] h = tt
check_sources-IsSource (source ∷ sources) h =
    elim (Option-cases (validate_apt_name suite source.suite)) [
      | inr (e, bad) ↦ absurd (cc (rw bad at h))
      | inl named ↦ elim (Bool-cases (is_empty source.components)) [
        | inl blank ↦ absurd (cc (rw (named, blank) at h))
        | inr full ↦ elim (Option-cases (validate_apt_names component source.components)) [
          | inr (e, bad) ↦ absurd (cc (rw (named, full, bad) at h))
          | inl good ↦ (
            record {
              suite = validate_apt_name-IsPlain suite source.suite named;
              has_components = is_empty-ne _ full;
              components = validate_apt_names-IsPlain component source.components good;
            },
            check_sources-IsSource sources (rw (named, full, good) at h),
          )
        ]
      ]
    ]
