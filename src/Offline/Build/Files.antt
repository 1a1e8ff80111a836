-- ===== src/Offline/Build/Files.antt =====
-- internal/offlineapt/offlineapt.go: the files that the build of the repository makes, copies and
-- looks for.
use ubuntu_vm_template_build.Base.{
  Bool, not, List, [], ◌∷◌, ◌++◌, Option, none, some, if◌then◌else◌, is_empty, codes,
}
use ubuntu_vm_template_build.Text.{Text, trim_space}
use ubuntu_vm_template_build.Text.Path.{join_path, base, dir}
use ubuntu_vm_template_build.Steps.{Step, done, fail, ◌>>=◌, ◌>>◌, ask}
use ubuntu_vm_template_build.Offline.Config.{ConfigError}
use ubuntu_vm_template_build.Offline.Install.{Repository, RepositorySource}
use ubuntu_vm_template_build.Offline.Uris.{PackageUri, UriError}
use ubuntu_vm_template_build.Offline.Index.{IndexError}
use ubuntu_vm_template_build.Offline.Host.{
  Host, Event, made_dirs, wrote_file, stated, opened, created, copied, closed,
}

pub data BuildError : Type 0 where
  bad_config : ConfigError → BuildError
  no_codename : BuildError
  dir_not_made file_not_written : Text → BuildError
  command_failed : List Text → BuildError
  not_authenticated : Text → BuildError
  bad_uri : UriError → BuildError
  no_uris : BuildError
  not_downloaded file_not_opened file_not_created file_not_copied file_not_closed :
      Text → BuildError
  bad_index : IndexError → BuildError
  bad_architecture : Text → Text → BuildError
  file_not_read : Text → BuildError
  no_path no_sources no_package_files : BuildError
  missing is_directory is_no_directory : Text → BuildError

abbrev pub Build : Type 0 → Type 0
Build = Step Event BuildError

-- A call whose answer is whether it has worked.
unfoldable pub must : (List Event → Bool) → (Bool → Event) → BuildError → Build Unit
must answer event e = do worked ← ask answer event; if worked then done tt else fail e

unfoldable pub make_dirs : Host → Text → Build Unit
make_dirs host path = must (λ h. host.make_dirs h path) (made_dirs path) (dir_not_made path)

unfoldable pub write_to : Host → Text → Text → Build Unit
write_to host path content =
    must (λ h. host.write_file h path content) (wrote_file path content) (file_not_written path)

unfoldable pub make_all_dirs : Host → List Text → Build Unit
make_all_dirs host [] = done tt
make_all_dirs host (path ∷ paths) = do make_dirs host path; make_all_dirs host paths

-- `prepareAPTDirectories`
unfoldable pub prepare_apt_directories : Host → Text → Text → Build Unit
prepare_apt_directories host download_dir apt_root = do
  make_all_dirs host (
      download_dir
      ∷ join_path (download_dir ∷ codes "partial" ∷ [])
      ∷ join_path (apt_root ∷ codes "etc/apt/sources.list.d" ∷ [])
      ∷ join_path (apt_root ∷ codes "etc/apt/trusted.gpg.d" ∷ [])
      ∷ join_path (apt_root ∷ codes "etc/apt/preferences.d" ∷ [])
      ∷ join_path (apt_root ∷ codes "var/cache/apt/archives/partial" ∷ [])
      ∷ join_path (apt_root ∷ codes "var/lib/apt/lists/partial" ∷ [])
      ∷ join_path (apt_root ∷ codes "var/lib/dpkg" ∷ [])
      ∷ [])
  write_to host (join_path (apt_root ∷ codes "var/lib/dpkg/status" ∷ [])) []

-- `copyFile`; a copy that has failed closes the file as well.
unfoldable pub copy_file : Host → Text → Text → Build Unit
copy_file host source target = do
  must (λ h. host.open_file h source) (opened source) (file_not_opened source)
  make_dirs host (dir target)
  must (λ h. host.create_file h target) (created target) (file_not_created target)
  worked ← ask (λ h. host.copy_data h source target) (copied source target)
  closes ← ask (λ h. host.close_file h target) (closed target)
  if not worked then fail (file_not_copied target) else done tt
  if closes then done tt else fail (file_not_closed target)

abbrev pub alternate_of : PackageUri → Text → Option Bool → Build Text
alternate_of pkg alternate (some is_dir) = done alternate
alternate_of pkg alternate none = fail (not_downloaded pkg.download_name)

abbrev pub source_of : Host → PackageUri → Text → Text → Option Bool → Build Text
source_of host pkg source alternate (some is_dir) = done source
source_of host pkg source alternate none = do
  info ← ask (λ h. host.stat h alternate) (stated alternate)
  alternate_of pkg alternate info

-- The file in the directory of downloads, under one name or the other.
unfoldable pub find_download : Host → Text → PackageUri → Build Text
find_download host download_dir pkg = do
  let source = join_path (download_dir ∷ base pkg.download_name ∷ [])
  info ← ask (λ h. host.stat h source) (stated source)
  source_of host pkg source (join_path (download_dir ∷ base pkg.relative_path ∷ [])) info

unfoldable pub copy_selected_packages : Host → Text → Text → List PackageUri → Build Unit
copy_selected_packages host download_dir repo_dir [] = done tt
copy_selected_packages host download_dir repo_dir (pkg ∷ packages) = do
  source ← find_download host download_dir pkg
  copy_file host source (join_path (repo_dir ∷ pkg.relative_path ∷ []))
  copy_selected_packages host download_dir repo_dir packages

abbrev pub a_file : Text → Option Bool → Build Unit
a_file path none = fail (missing path)
a_file path (some is_dir) = if is_dir then fail (is_directory path) else done tt

-- `requireFile`
unfoldable pub require_file : Host → Text → Build Unit
require_file host path = do info ← ask (λ h. host.stat h path) (stated path); a_file path info

unfoldable pub require_files : Host → List Text → Build Unit
require_files host [] = done tt
require_files host (path ∷ paths) = do require_file host path; require_files host paths

-- The files of a source's indexes.
unfoldable pub component_files : Text → Text → List Text → List Text
component_files path suite_name [] = []
component_files path suite_name (name ∷ names) =
    join_path
      (path ∷ codes "dists" ∷ suite_name ∷ name ∷ codes "binary-amd64" ∷ codes "Packages" ∷ [])
    ∷ join_path
        (path ∷ codes "dists" ∷ suite_name ∷ name ∷ codes "binary-all" ∷ codes "Packages" ∷ [])
    ∷ component_files path suite_name names

unfoldable pub source_files : Text → List RepositorySource → List Text
source_files path [] = []
source_files path (source ∷ sources) =
    join_path (path ∷ codes "dists" ∷ source.suite ∷ codes "Release" ∷ [])
      ∷ component_files path source.suite source.components
    ++ source_files path sources

unfoldable pub package_paths : Text → List Text → List Text
package_paths path [] = []
package_paths path (rel ∷ rels) = join_path (path ∷ rel ∷ []) ∷ package_paths path rels

abbrev pub a_directory : Text → Option Bool → Build Unit
a_directory path none = fail (missing path)
a_directory path (some is_dir) = if is_dir then done tt else fail (is_no_directory path)

-- `ValidateRepository`
unfoldable pub validate_repository : Host → Repository → Build Unit
validate_repository host repo = do
  if is_empty (trim_space repo.path) then fail no_path else done tt
  info ← ask (λ h. host.stat h repo.path) (stated repo.path)
  a_directory repo.path info
  if is_empty repo.sources then fail no_sources else done tt
  require_files host (source_files repo.path repo.sources)
  if is_empty repo.package_files then fail no_package_files else done tt
  require_files host (package_paths repo.path repo.package_files)
