-- ===== src/Offline/Build/Safety/Whole.antt =====
-- internal/offlineapt/offlineapt.go: the whole build of the repository is safe.
use ubuntu_vm_template_build.Base.{
  ◌≡◌, refl, subst, false, not, List, [], ◌∷◌, ◌++◌, Option, some, is_empty, codes, OneOf, All, inl,
  inr, Result, ok, err, arith,
}
use ubuntu_vm_template_build.Text.{Text, trim_space, is_among, equal}
use ubuntu_vm_template_build.Text.Path.{join_path}
use ubuntu_vm_template_build.Text.Path.Below.{join_path-full}
use ubuntu_vm_template_build.Steps.{expect}
use ubuntu_vm_template_build.Steps.Triple.{
  Post, Triple, Triple->>=, Triple->>, Triple-done, Triple-fail, Triple-if, Triple-ask,
  Triple-expect, Triple-check, Triple-lift, Triple-weaken,
}
use ubuntu_vm_template_build.Offline.Config.{Config, enabled, normalize, validate}
use ubuntu_vm_template_build.Offline.Uris.{PackageUri, parse_package_uris}
use ubuntu_vm_template_build.Offline.Uris.Paths.{IsPoolPath}
use ubuntu_vm_template_build.Offline.Uris.Ordered.{parse_package_uris-AllPoolPaths}
use ubuntu_vm_template_build.Offline.Index.{selected_package_index_records, PackageIndexRecord}
use ubuntu_vm_template_build.Offline.Host.{Host, Event, History, Sums, ran}
use ubuntu_vm_template_build.Offline.Build.Files.{
  Build, BuildError, no_uris, bad_index, bad_config, no_codename,
}
use ubuntu_vm_template_build.Offline.Build.Metadata.{
  check_architectures, write_packages, read_index, write_release_file,
  write_trimmed_repository_metadata,
}
use ubuntu_vm_template_build.Offline.Build.{
  Urls, check_apt_update_output, isolated_apt_options, run_apt_get, list_packages, build_enabled,
  build_repository_with_codename, no_repository, bad_uri,
}
use ubuntu_vm_template_build.Offline.Build.Safety.{
  IsAuthenticated, IsSafe, AllSafe, ask-Keeps, done-Keeps, make_dirs-Keeps, write_to-Keeps,
  prepare_apt_directories-Keeps, copy_selected_packages-Keeps, validate_repository-Keeps,
}

module _ (repo_dir : Text) (K : History → Type 0)
    (lasts : (e : Event) (h : History) → IsSafe repo_dir e h → K h → K (e ∷ h)) (host : Host) where
  expect-Keeps : {A : Type 0} (e : BuildError) (o : Option A) → Triple K (expect e o) (λ _. K) K
  expect-Keeps e o = Triple-expect e o (λ a s h k. k) (λ h k. k)

  read_index-Keeps : (name : Text) → Triple K (read_index host repo_dir name) (λ _. K) K
  unfolding read_index IsSafe
  read_index-Keeps name =
      Triple->>= (ask-Keeps repo_dir K lasts _ _ (λ b h k. tt))
        λ found. Triple->>= (expect-Keeps _ found) λ content. done-Keeps repo_dir K lasts _

  write_packages-Keeps :
      (records : List PackageIndexRecord) (name : Text)
      → Triple K (write_packages host repo_dir records name) (λ _. K) K
  unfolding write_packages
  write_packages-Keeps records name =
      Triple->> (make_dirs-Keeps repo_dir K lasts host _)
        (λ _. write_to-Keeps repo_dir K lasts host _ _)

  write_trimmed_repository_metadata-Keeps :
      (sums : Sums) (apt_root : Text) (packages : List PackageUri)
      → Triple K (write_trimmed_repository_metadata host sums apt_root repo_dir packages) (λ _. K) K
  unfolding write_trimmed_repository_metadata write_release_file IsSafe
  write_trimmed_repository_metadata-Keeps sums apt_root packages =
      Triple->>= (ask-Keeps repo_dir K lasts _ _ (λ b h k. tt)) λ entries.
        Triple->>=
          (Triple-lift bad_index (selected_package_index_records entries packages) (λ a s h k. k)
            (λ h k. k))
          λ records.
            Triple->> (Triple-check (λ e. e) (check_architectures records) (λ s h k. k) (λ h k. k))
              λ _. Triple->> (write_packages-Keeps records (codes "amd64")) λ _.
                Triple->> (write_packages-Keeps records (codes "all")) λ _.
                  Triple->>= (read_index-Keeps (codes "amd64")) λ amd64.
                    Triple->>= (read_index-Keeps (codes "all"))
                      λ all. write_to-Keeps repo_dir K lasts host _ _

  run_apt_get-Keeps :
      (args : List Text)
      → ((h : History) → K h → IsAuthenticated h)
      → Triple K (run_apt_get host args) (λ _. K) K
  unfolding run_apt_get IsSafe
  run_apt_get-Keeps args authenticated =
      Triple->>= (ask-Keeps repo_dir K lasts _ _ (λ a h k _. authenticated h k)) (expect-Keeps _)

-- What is kept once apt's lists are authenticated.
Authenticated : Text → History → Type 0
Authenticated repo_dir h = AllSafe repo_dir h × IsAuthenticated h

Authenticated-lasts :
    (repo_dir : Text) (e : Event) (h : History)
    → IsSafe repo_dir e h
    → Authenticated repo_dir h
    → Authenticated repo_dir (e ∷ h)
unfolding Authenticated AllSafe
Authenticated-lasts repo_dir e h s (k, a) = (
  (s, k),
  record {
    args = a.args;
    output = a.output;
    updated = inr a.updated;
    is_update = a.is_update;
    passed = a.passed;
  },
)

AllSafe-lasts :
    (repo_dir : Text) (e : Event) (h : History)
    → IsSafe repo_dir e h
    → AllSafe repo_dir h
    → AllSafe repo_dir (e ∷ h)
unfolding AllSafe
AllSafe-lasts repo_dir e h s k = (s, k)

module _ (host : Host) (repo_dir : Text) where
  -- After an authenticated step the calls so far are safe whatever comes.
  authenticated :
      {A : Type 0} {m : Build A}
      → Triple (Authenticated repo_dir) m (λ _. Authenticated repo_dir) (Authenticated repo_dir)
      → Triple (Authenticated repo_dir) m (λ _. Authenticated repo_dir) (AllSafe repo_dir)
  unfolding Authenticated
  authenticated t = Triple-weaken (λ h k. k) (λ a h k. k) (λ h k. k.0) t

  run_update :
      (args : List Text)
      → is_among (codes "install") args ≡ false
      → Triple
          (AllSafe repo_dir)
          (run_apt_get host args)
          (λ output h. AllSafe repo_dir h × OneOf (ran (codes "apt-get") args (some output)) h)
          (AllSafe repo_dir)
  unfolding run_apt_get AllSafe IsSafe
  run_update args no_install =
      Triple->>= {Q = λ answer h. AllSafe repo_dir h × OneOf (ran (codes "apt-get") args answer) h}
        (Triple-ask _ _ (λ h a k. (((λ installs. absurd (ground arith)), k), inl refl)))
        λ answer.
          Triple-expect _ answer
            (λ output same h q. (q.0, subst (λ o. OneOf (ran (codes "apt-get") args o) h) same q.1))
            (λ h q. q.0)

  list_packages-Authenticated :
      (urls : Urls) (cfg : Config) (apt_root download_dir : Text)
      → Triple
          (AllSafe repo_dir)
          (list_packages host urls cfg (isolated_apt_options apt_root download_dir))
          (λ packages h.
            Authenticated repo_dir h × All (λ pkg. IsPoolPath pkg.relative_path) packages)
          (AllSafe repo_dir)
  unfolding list_packages isolated_apt_options is_among equal Authenticated
  list_packages-Authenticated urls cfg apt_root download_dir =
      Triple->>= (run_update _ refl) λ output.
        Triple->> {Q = λ _. Authenticated repo_dir}
          (Triple-check (λ e. e) (check_apt_update_output output)
            (λ passed h q. (
              q.0,
              record {
                args = isolated_apt_options apt_root download_dir ++ codes "update" ∷ [];
                output = output;
                updated = q.1;
                is_update = refl;
                passed = passed;
              },
            ))
            (λ h q. q.0))
          λ _.
            Triple->>=
              (authenticated (
                run_apt_get-Keeps repo_dir (Authenticated repo_dir) (Authenticated-lasts repo_dir)
                  host _ (λ h k. k.1)))
              λ uri_output.
                Triple->>=
                  {Q = λ packages h.
                    Authenticated repo_dir h × All (λ pkg. IsPoolPath pkg.relative_path) packages}
                  (Triple-lift bad_uri (parse_package_uris urls.unescaped_path uri_output)
                    (λ packages parsed h k. (
                      k,
                      (parse_package_uris-AllPoolPaths urls.unescaped_path uri_output packages
                          parsed).0,
                    ))
                    (λ h k. k.0))
                  λ packages.
                    Triple-if (is_empty packages) (λ _. Triple-fail no_uris (λ h q. q.0.0))
                      (λ _. Triple-done packages (λ h q. q))

abbrev pub repo_dir_of : Text → Text
repo_dir_of work_dir = join_path (work_dir ∷ codes "offline-apt-repo" ∷ [])

-- A fact that does not depend on the calls is taken out of what holds before.
Triple-given :
    {A : Type 0} {P F : History → Type 0} {Q : A → History → Type 0} {C : Type 0} {m : Build A}
    → (C → Triple P m Q F)
    → Triple (λ h. P h × C) m Q F
Triple-given t = record { runs = λ h p. (t p.1).runs h p.0 }

forget : (repo_dir : Text) (h : History) → Authenticated repo_dir h → AllSafe repo_dir h
unfolding Authenticated
forget repo_dir h k = k.0

is_authenticated : (repo_dir : Text) (h : History) → Authenticated repo_dir h → IsAuthenticated h
unfolding Authenticated
is_authenticated repo_dir h k = k.1

build_enabled-Safe :
    (host : Host) (urls : Urls) (sums : Sums) (cfg : Config) (codename work_dir : Text)
    → Triple
        (AllSafe (repo_dir_of work_dir))
        (build_enabled host urls sums cfg codename work_dir)
        (λ _. AllSafe (repo_dir_of work_dir))
        (AllSafe (repo_dir_of work_dir))
unfolding build_enabled
build_enabled-Safe host urls sums cfg codename work_dir =
    let repo_dir = repo_dir_of work_dir in
    let lasts = Authenticated-lasts repo_dir in
    let K = Authenticated repo_dir in
    Triple->>
      (prepare_apt_directories-Keeps repo_dir (AllSafe repo_dir) (AllSafe-lasts repo_dir) host _ _)
      λ _.
        Triple->> (write_to-Keeps repo_dir (AllSafe repo_dir) (AllSafe-lasts repo_dir) host _ _)
          λ _. Triple->>= (list_packages-Authenticated host repo_dir urls cfg _ _) λ packages.
            Triple-given λ paths.
              Triple-weaken {P = K} {F = K} {Q = λ _. K} (λ h k. k) (λ a h k. forget repo_dir h k)
                (λ h k. forget repo_dir h k)
                (Triple->>
                  (run_apt_get-Keeps repo_dir K lasts host _ (λ h k. is_authenticated repo_dir h k))
                  λ _.
                    Triple->>
                      (copy_selected_packages-Keeps repo_dir K lasts host _ packages
                        (join_path-full work_dir (codes "offline-apt-repo") refl) paths)
                      λ _.
                        Triple->>
                          (write_trimmed_repository_metadata-Keeps repo_dir K lasts host sums _
                            packages)
                          λ _.
                            Triple->> (validate_repository-Keeps repo_dir K lasts host _)
                              λ _. done-Keeps repo_dir K lasts _)

Post-AllSafe :
    {A : Type 0} (repo_dir : Text) (o : Result BuildError A × History)
    → Post (λ _. AllSafe repo_dir) (AllSafe repo_dir) o
    → AllSafe repo_dir o.1
Post-AllSafe repo_dir (ok a, h) k = k
Post-AllSafe repo_dir (err e, h) k = k

-- Whatever apt and the file system answer, a build asks apt to install only after an update of the
-- lists whose output shows no index that is not authenticated; and every file that a package is
-- copied to lies below the repository's directory, in `pool`, with names alone in its path.
pub build_repository_with_codename-AllSafe :
    (host : Host) (urls : Urls) (sums : Sums) (config : Config) (codename work_dir : Text)
    → AllSafe
        (repo_dir_of work_dir)
        (build_repository_with_codename host urls sums config codename work_dir []).1
unfolding build_repository_with_codename AllSafe
build_repository_with_codename-AllSafe host urls sums config codename work_dir =
    let cfg = normalize config in
    let repo_dir = repo_dir_of work_dir in
    let K = AllSafe repo_dir in
    let t : Triple K (build_repository_with_codename host urls sums config codename work_dir)
        (λ _. K) K =
      Triple-if (not (enabled cfg)) (λ _. Triple-done no_repository (λ h k. k))
        λ _.
          Triple->>
            (Triple-check bad_config (validate urls.is_request_uri cfg) (λ s h k. k) (λ h k. k))
            λ _.
              Triple-if (is_empty (trim_space codename)) (λ _. Triple-fail no_codename (λ h k. k))
                (λ _. build_enabled-Safe host urls sums cfg codename work_dir) in
    Post-AllSafe repo_dir
      (build_repository_with_codename host urls sums config codename work_dir []) (t.runs [] tt)
