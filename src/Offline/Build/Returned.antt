-- ===== src/Offline/Build/Returned.antt =====
-- internal/offlineapt/offlineapt.go: what `BuildRepository` returns without an error.
use ubuntu_vm_template_build.Base.{
  ◌≡◌, refl, sym, ap, ◌∙◌, inl, inr, Bool, true, false, not, ◌&&◌, List, [], Option, none, some,
  if◌then◌else◌, is_empty, Bool-cases, Option-cases, Result, Result-cases, ok, err,
}
use ubuntu_vm_template_build.Text.{Text}
use ubuntu_vm_template_build.Steps.{done, ◌>>=◌, ◌>>◌, check, lift, fail}
use ubuntu_vm_template_build.Offline.Config.{Config, enabled, normalize, validate}
use ubuntu_vm_template_build.Offline.Install.{Repository}
use ubuntu_vm_template_build.Offline.Host.{Host, History, Sums}
use ubuntu_vm_template_build.Offline.Build.{Urls, no_repository, build_repository_with_codename}
use ubuntu_vm_template_build.Offline.Build.Complete.{
  IsComplete, build_repository_with_codename-IsComplete,
}
use ubuntu_vm_template_build.Offline.Codename.{build_repository, detect_iso_codename}

-- A complete repository, for the configuration as it is normalized twice; where that is not enabled
-- there is no repository.
pub IsReturned : Config → Repository → Type 0
IsReturned config repo =
    let used = normalize (normalize config) in
    if enabled (normalize config) && enabled used
    then ((h : History) × IsComplete used repo h)
    else repo ≡ no_repository

module _ (host : Host) (urls : Urls) (sums : Sums) where
  with_codename-IsReturned :
      (config : Config) (codename work_dir : Text) (repo : Repository) (h : History)
      → enabled (normalize config) ≡ true
      → build_repository_with_codename host urls sums (normalize config) codename work_dir []
        ≡ (ok repo, h)
      → IsReturned config repo
  unfolding IsReturned build_repository_with_codename done
  with_codename-IsReturned config codename work_dir repo h on e =
      elim (Bool-cases (enabled (normalize (normalize config)))) [
        | inl used ↦
            rw (on, used)
              (h,
                build_repository_with_codename-IsComplete host urls sums (normalize config)
                  codename work_dir repo h used e)
        | inr unused ↦ rw (on, unused) (cc (rw unused at e))
      ]

  pub build_repository-IsReturned :
      (config : Config) (dists : Option (List (Text × Option Text))) (work_dir : Text)
      (repo : Repository) (h : History)
      → build_repository host urls sums config dists work_dir [] ≡ (ok repo, h)
      → IsReturned config repo
  unfolding IsReturned build_repository done check lift fail ◌>>◌ ◌>>=◌
  build_repository-IsReturned config dists work_dir repo h e =
      elim (Bool-cases (enabled (normalize config))) [
        | inr off ↦ rw off (cc (rw off at e))
        | inl on ↦ elim (Option-cases (validate urls.is_request_uri (normalize config))) [
          | inr (bad, invalid) ↦ absurd (cc (rw (on, invalid) at e))
          | inl valid ↦ elim (Result-cases (detect_iso_codename dists)) [
            | inr (bad, unknown) ↦ absurd (cc (rw (on, valid, unknown) at e))
            | inl (codename, known) ↦
                with_codename-IsReturned config codename work_dir repo h on
                  (rw (on, valid, known) at e)
          ]
        ]
      ]
