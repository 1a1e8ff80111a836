-- ===== src/Offline/Codename.antt =====
-- internal/offlineapt/offlineapt.go: the codename of the release on the ISO, and the paths of the
-- repository on the ISO.
use ubuntu_vm_template_build.Base.{
  ◌||◌, not, ◌==◌, List, [], ◌∷◌, ◌++◌, map, Option, none, some, if◌then◌else◌, is_empty, codes,
  Result, ok, err,
}
use ubuntu_vm_template_build.Text.{
  Text, trim_space, trim_left_by, trim_right_by, to_lower, equal, cut, split,
}
use ubuntu_vm_template_build.Text.Order.{sort_by}
use ubuntu_vm_template_build.Steps.{done, ◌>>◌, ◌>>=◌, check, lift}
use ubuntu_vm_template_build.Offline.Config.{Config, enabled, normalize, validate}
use ubuntu_vm_template_build.Offline.Install.{Repository, iso_repo_path, source_index_paths}
use ubuntu_vm_template_build.Offline.Host.{Host, Sums}
use ubuntu_vm_template_build.Offline.Build.Files.{Build, BuildError, bad_config, no_codename}
use ubuntu_vm_template_build.Offline.Build.{Urls, no_repository, build_repository_with_codename}

-- A line's value, if the line is one of the codename.
abbrev pub codename_of : Option (Text × Text) → Option Text
codename_of none = none
codename_of (some (key, value)) =
    if equal (to_lower (trim_space key)) (codes "codename") then some (trim_space value) else none

abbrev pub or_line : Option Text → Text → Text
or_line none next = next
or_line (some value) next = value

unfoldable pub codename_in_lines : List Text → Text
unfolding cut
codename_in_lines [] = []
codename_in_lines (line ∷ lines) = or_line (codename_of (cut line b':')) (codename_in_lines lines)

unfoldable pub release_codename : Text → Text
release_codename release = codename_in_lines (split release b'\n')

abbrev pub or_name : Text → Text → Text
or_name [] name = name
or_name (c ∷ codename) name = c ∷ codename

abbrev pub with_release : Text → Option Text → List Text → List Text
with_release name none rest = rest
with_release name (some release) rest = or_name (release_codename release) name ∷ rest

-- The candidates among the entries of `/dists`, each with its Release file if it can be read.
unfoldable pub candidates : List (Text × Option Text) → List Text
unfolding release_codename
candidates [] = []
candidates ((entry, release) ∷ entries) =
    let name = trim_space entry in
    let rest = candidates entries in
    if is_empty name
      || equal (to_lower name) (codes "stable")
      || equal (to_lower name) (codes "unstable")
    then rest
    else with_release name release rest

abbrev pub first_of : List Text → Result BuildError Text
first_of [] = err no_codename
first_of (name ∷ names) = ok name

abbrev pub first_candidate : Option (List (Text × Option Text)) → Result BuildError Text
first_candidate none = err no_codename
first_candidate (some entries) = first_of (sort_by (λ name. name) (candidates entries))

-- `DetectISOCodename`; `none` where `/dists` cannot be read.
unfoldable pub detect_iso_codename : Option (List (Text × Option Text)) → Result BuildError Text
unfolding candidates
detect_iso_codename dists = first_candidate dists

-- `BuildRepositoryWithRunner`
unfoldable pub build_repository :
    Host → Urls → Sums → Config → Option (List (Text × Option Text)) → Text → Build Repository
build_repository host urls sums config dists work_dir =
    let cfg = normalize config in
    if not (enabled cfg)
    then done no_repository
    else check bad_config (validate urls.is_request_uri cfg)
      >> (lift (λ e. e) (detect_iso_codename dists) >>= λ codename.
          build_repository_with_codename host urls sums cfg codename work_dir)

unfoldable pub iso_repo_file : Text → Text
iso_repo_file rel =
    trim_right_by (λ c. c == b'/') iso_repo_path ++ (codes "/" ++ trim_left_by (λ c. c == b'/') rel)

-- The paths that `ValidateEmbeddedRepository` opens.
unfoldable pub embedded_paths : Repository → List Text
embedded_paths repo =
    map iso_repo_file (source_index_paths repo.sources) ++ map iso_repo_file repo.package_files
