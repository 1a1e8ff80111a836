-- ===== src/Offline/Build/Safety.antt =====
-- internal/offlineapt/offlineapt.go: what a build of the repository has done before it asks apt for
-- packages, and where it puts them.
pub mod Whole
use ubuntu_vm_template_build.Base.{
  ◌≡◌, refl, Bool, true, false, not, List, [], ◌∷◌, ◌++◌, Option, none, some, is_empty, codes,
  OneOf, All, inl, inr,
}
use ubuntu_vm_template_build.Text.{Text, trim_space, is_among, split, equal}
use ubuntu_vm_template_build.Text.Path.{join_path, clean_parts, is_rooted}
use ubuntu_vm_template_build.Text.Path.Below.{of_parts, join_path-below, join_path-full}
use ubuntu_vm_template_build.Steps.{Step, done, fail, ◌>>=◌, ◌>>◌, ask, expect, check, lift}
use ubuntu_vm_template_build.Steps.Triple.{
  Triple, Triple->>=, Triple->>, Triple-done, Triple-fail, Triple-if, Triple-ask, Triple-expect,
  Triple-check, Triple-lift, Triple-weaken,
}
use ubuntu_vm_template_build.Offline.Install.{Repository}
use ubuntu_vm_template_build.Offline.Uris.{PackageUri}
use ubuntu_vm_template_build.Offline.Uris.Paths.{IsPoolPath}
use ubuntu_vm_template_build.Offline.Host.{
  Host, Event, History, ran, made_dirs, wrote_file, stated, listed, read_file, opened, created,
  copied, closed,
}
use ubuntu_vm_template_build.Offline.Build.Files.{
  Build, BuildError, must, make_dirs, write_to, make_all_dirs, prepare_apt_directories, copy_file,
  alternate_of, source_of, file_not_copied, find_download, copy_selected_packages, a_file,
  require_file, require_files, a_directory, validate_repository, no_path, no_sources,
  no_package_files, source_files, package_paths,
}
use ubuntu_vm_template_build.Offline.Build.{check_apt_update_output}

-- apt has updated its lists, and its output shows no index that is not authenticated.
pub record IsAuthenticated (h : History) : Type 0 where
  pub args : List Text
  pub output : Text
  pub updated : OneOf (ran (codes "apt-get") args (some output)) h
  pub is_update : is_among (codes "update") args ≡ true
  pub passed : check_apt_update_output output ≡ none

module _ (repo_dir : Text) where
  -- The parts of the path are those of the repository and then names, `pool` the first.
  pub record IsBelow (path : Text) : Type 0 where
    pub rel : Text
    pub in_pool : IsPoolPath rel
    pub is_path : path ≡ of_parts (is_rooted repo_dir) (clean_parts repo_dir ++ split rel b'/')

  -- What has happened when apt is asked to install, or a file is opened to be written.
  pub IsSafe : Event → History → Type 0
  IsSafe (ran name args answer) h = is_among (codes "install") args ≡ true → IsAuthenticated h
  IsSafe (created path worked) h = IsBelow path
  IsSafe (made_dirs path worked) h = Unit
  IsSafe (wrote_file path content worked) h = Unit
  IsSafe (stated path answer) h = Unit
  IsSafe (listed path entries) h = Unit
  IsSafe (read_file path content) h = Unit
  IsSafe (opened path worked) h = Unit
  IsSafe (copied source target worked) h = Unit
  IsSafe (closed path worked) h = Unit

  pub AllSafe : History → Type 0
  unfolding IsSafe
  AllSafe [] = Unit
  AllSafe (e ∷ h) = IsSafe e h × AllSafe h

  -- An assertion that the safe calls keep.
  module _ (K : History → Type 0)
      (lasts : (e : Event) (h : History) → IsSafe e h → K h → K (e ∷ h)) where
    pub Keeps : {A : Type 0} → Build A → Type 0
    Keeps m = Triple K m (λ _. K) K

    ask-Keeps :
        {A : Type 0} (answer : History → A) (event : A → Event)
        → ((a : A) (h : History) → K h → IsSafe (event a) h)
        → Triple K (ask {Error = BuildError} answer event) (λ _. K) K
    ask-Keeps answer event s = Triple-ask answer event (λ h a k. lasts (event a) h (s a h k) k)

    done-Keeps : {A : Type 0} (a : A) → Triple K (done {Error = BuildError} a) (λ _. K) K
    done-Keeps a = Triple-done a (λ h k. k)

    fail-Keeps : {A : Type 0} (e : BuildError) → Triple K (fail {A = A} e) (λ _. K) K
    fail-Keeps e = Triple-fail e (λ h k. k)

    must-Keeps :
        (answer : History → Bool) (event : Bool → Event) (e : BuildError)
        → ((b : Bool) (h : History) → K h → IsSafe (event b) h)
        → Triple K (must answer event e) (λ _. K) K
    unfolding must
    must-Keeps answer event e s =
        Triple->>= (ask-Keeps answer event s)
          λ worked. Triple-if worked (λ _. done-Keeps tt) (λ _. fail-Keeps e)

    module _ (host : Host) where
      pub make_dirs-Keeps : (path : Text) → Triple K (make_dirs host path) (λ _. K) K
      unfolding make_dirs IsSafe
      make_dirs-Keeps path = must-Keeps _ _ _ (λ b h k. tt)

      pub write_to-Keeps : (path content : Text) → Triple K (write_to host path content) (λ _. K) K
      unfolding write_to IsSafe
      write_to-Keeps path content = must-Keeps _ _ _ (λ b h k. tt)

      make_all_dirs-Keeps : (paths : List Text) → Triple K (make_all_dirs host paths) (λ _. K) K
      unfolding make_all_dirs
      make_all_dirs-Keeps [] = done-Keeps tt
      make_all_dirs-Keeps (path ∷ paths) =
          Triple->> (make_dirs-Keeps path) (λ _. make_all_dirs-Keeps paths)

      pub prepare_apt_directories-Keeps :
          (download_dir apt_root : Text)
          → Triple K (prepare_apt_directories host download_dir apt_root) (λ _. K) K
      unfolding prepare_apt_directories
      prepare_apt_directories-Keeps download_dir apt_root =
          Triple->> (make_all_dirs-Keeps _) (λ _. write_to-Keeps _ _)

      copy_file-Keeps :
          (source target : Text)
          → IsBelow target
          → Triple K (copy_file host source target) (λ _. K) K
      unfolding copy_file IsSafe
      copy_file-Keeps source target below = Triple->> (must-Keeps _ _ _ (λ b h k. tt)) λ _.
          Triple->> (make_dirs-Keeps _) λ _. Triple->> (must-Keeps _ _ _ (λ b h k. below)) λ _.
            Triple->>= (ask-Keeps _ _ (λ b h k. tt)) λ worked.
              Triple->>= (ask-Keeps _ _ (λ b h k. tt)) λ closes.
                Triple->>
                  (Triple-if (not worked) (λ _. fail-Keeps (file_not_copied target))
                    (λ _. done-Keeps tt))
                  λ _. Triple-if closes (λ _. done-Keeps tt) (λ _. fail-Keeps _)

      alternate_of-Keeps :
          (pkg : PackageUri) (alternate : Text) (info : Option Bool)
          → Triple K (alternate_of pkg alternate info) (λ _. K) K
      alternate_of-Keeps pkg alternate (some is_dir) = done-Keeps alternate
      alternate_of-Keeps pkg alternate none = fail-Keeps _

      source_of-Keeps :
          (pkg : PackageUri) (source alternate : Text) (info : Option Bool)
          → Triple K (source_of host pkg source alternate info) (λ _. K) K
      unfolding IsSafe
      source_of-Keeps pkg source alternate (some is_dir) = done-Keeps source
      source_of-Keeps pkg source alternate none =
          Triple->>= (ask-Keeps _ _ (λ b h k. tt)) (alternate_of-Keeps pkg alternate)

      find_download-Keeps :
          (download_dir : Text) (pkg : PackageUri)
          → Triple K (find_download host download_dir pkg) (λ _. K) K
      unfolding find_download IsSafe
      find_download-Keeps download_dir pkg =
          Triple->>= (ask-Keeps _ _ (λ b h k. tt)) (source_of-Keeps pkg _ _)

      -- The packages' paths lie in the pool.
      pub copy_selected_packages-Keeps :
          (download_dir : Text) (packages : List PackageUri)
          → is_empty repo_dir ≡ false
          → All (λ pkg. IsPoolPath pkg.relative_path) packages
          → Triple K (copy_selected_packages host download_dir repo_dir packages) (λ _. K) K
      unfolding copy_selected_packages
      copy_selected_packages-Keeps download_dir [] full h = done-Keeps tt
      copy_selected_packages-Keeps download_dir (pkg ∷ packages) full (path, paths) =
          Triple->>= (find_download-Keeps download_dir pkg) λ source.
            Triple->>
              (copy_file-Keeps source _ (record {
                rel = pkg.relative_path;
                in_pool = path;
                is_path =
                    join_path-below repo_dir pkg.relative_path full path.names path.joined
                      path.full;
              }))
              λ _. copy_selected_packages-Keeps download_dir packages full paths

      a_file-Keeps : (path : Text) (info : Option Bool) → Triple K (a_file path info) (λ _. K) K
      a_file-Keeps path none = fail-Keeps _
      a_file-Keeps path (some is_dir) = Triple-if is_dir (λ _. fail-Keeps _) (λ _. done-Keeps tt)

      a_directory-Keeps :
          (path : Text) (info : Option Bool) → Triple K (a_directory path info) (λ _. K) K
      a_directory-Keeps path none = fail-Keeps _
      a_directory-Keeps path (some is_dir) =
          Triple-if is_dir (λ _. done-Keeps tt) (λ _. fail-Keeps _)

      require_files-Keeps : (paths : List Text) → Triple K (require_files host paths) (λ _. K) K
      unfolding require_files require_file IsSafe
      require_files-Keeps [] = done-Keeps tt
      require_files-Keeps (path ∷ paths) =
          Triple->> (Triple->>= (ask-Keeps _ _ (λ b h k. tt)) (a_file-Keeps path))
            (λ _. require_files-Keeps paths)

      pub validate_repository-Keeps :
          (repo : Repository) → Triple K (validate_repository host repo) (λ _. K) K
      unfolding validate_repository IsSafe
      validate_repository-Keeps repo =
          Triple->>
            (Triple-if (is_empty (trim_space repo.path)) (λ _. fail-Keeps no_path)
              (λ _. done-Keeps tt))
            λ _. Triple->>= (ask-Keeps _ _ (λ b h k. tt)) λ info.
              Triple->> (a_directory-Keeps repo.path info) λ _.
                Triple->>
                  (Triple-if (is_empty repo.sources) (λ _. fail-Keeps no_sources)
                    (λ _. done-Keeps tt))
                  λ _. Triple->> (require_files-Keeps (source_files repo.path repo.sources)) λ _.
                    Triple->>
                      (Triple-if (is_empty repo.package_files) (λ _. fail-Keeps no_package_files)
                        (λ _. done-Keeps tt))
                      λ _. require_files-Keeps (package_paths repo.path repo.package_files)
