-- ===== src/Offline/Build/Metadata.antt =====
-- internal/offlineapt/offlineapt.go: the package indexes of the repository and its Release file.
use ubuntu_vm_template_build.Base.{
  ℕ, Bool, ◌||◌, List, [], ◌∷◌, ◌++◌, Option, none, some, if◌then◌else◌, is_empty, codes, ◌==◌,
  length,
}
use ubuntu_vm_template_build.Text.{Text, trim_right_by, equal}
use ubuntu_vm_template_build.Text.Path.{join_path, dir}
use ubuntu_vm_template_build.Decimal.{digits}
use ubuntu_vm_template_build.Steps.{done, ◌>>=◌, ◌>>◌, ask, expect, check, lift}
use ubuntu_vm_template_build.Offline.Uris.{PackageUri}
use ubuntu_vm_template_build.Offline.Index.{PackageIndexRecord, selected_package_index_records}
use ubuntu_vm_template_build.Offline.Host.{Host, Sums, listed, read_file}
use ubuntu_vm_template_build.Offline.Build.Files.{
  Build, BuildError, bad_index, bad_architecture, file_not_read, make_dirs, write_to,
}

unfoldable pub is_known_architecture : Text → Bool
is_known_architecture name = equal name (codes "amd64") || equal name (codes "all")

-- The loop that sorts the records out by their architectures.
unfoldable pub check_architectures : List PackageIndexRecord → Option BuildError
check_architectures [] = none
check_architectures (r ∷ records) =
    let rest = check_architectures records in
    if is_known_architecture r.architecture
    then rest
    else some (bad_architecture r.relative_path r.architecture)

unfoldable pub of_architecture : Text → List PackageIndexRecord → List PackageIndexRecord
of_architecture name [] = []
of_architecture name (r ∷ records) =
    let rest = of_architecture name records in if equal r.architecture name then r ∷ rest else rest

abbrev pub is_line_end : ℕ → Bool
is_line_end c = c == b'\r' || c == b'\n'

-- The text of an index with the records.
unfoldable pub packages_text : List PackageIndexRecord → Text
packages_text [] = []
packages_text (r ∷ records) =
    let text = trim_right_by is_line_end r.text in
    let rest = packages_text records in
    if is_empty text then rest else text ++ (codes "\n\n" ++ rest)

unfoldable pub packages_path : Text → Text → Text
packages_path repo_dir name = join_path (
    repo_dir
    ∷ codes "dists"
    ∷ codes "offline"
    ∷ codes "main"
    ∷ (codes "binary-" ++ name)
    ∷ codes "Packages"
    ∷ [])

unfoldable pub write_packages : Host → Text → List PackageIndexRecord → Text → Build Unit
write_packages host repo_dir records name = do
  make_dirs host (dir (packages_path repo_dir name))
  write_to host (packages_path repo_dir name) (packages_text (of_architecture name records))

-- An index by its path in the suite, with its content.
pub record ReleaseIndex : Type 0 where
  pub path : Text
  pub content : Text

unfoldable pub sum_lines : (Text → Text) → List ReleaseIndex → Text
sum_lines sum [] = []
sum_lines sum (index ∷ indexes) =
    codes " "
    ++ (sum index.content
        ++ (codes " "
            ++ (digits (length index.content)
                ++ (codes " " ++ (index.path ++ (codes "\n" ++ sum_lines sum indexes))))))

unfoldable pub release_text : Sums → List ReleaseIndex → Text
release_text sums indexes =
    codes "Origin: ubuntu-vm-template-builder\n"
    ++ (codes "Label: ubuntu-vm-template-builder offline packages\n"
        ++ (codes "Suite: offline\nCodename: offline\nArchitectures: amd64 all\nComponents: main\n"
            ++ (codes "Date: Mon, 25 May 2026 00:00:00 +0000\n"
                ++ (codes "MD5Sum:\n"
                    ++ (sum_lines sums.md5 indexes
                        ++ (codes "SHA1:\n"
                            ++ (sum_lines sums.sha1 indexes
                                ++ (codes "SHA256:\n"
                                    ++ (sum_lines sums.sha256 indexes
                                        ++ (codes "SHA512:\n"
                                            ++ sum_lines sums.sha512 indexes))))))))))

unfoldable pub read_index : Host → Text → Text → Build ReleaseIndex
read_index host repo_dir name = do
  let path = packages_path repo_dir name
  found ← ask (λ h. host.read_file h path) (read_file path)
  content ← expect (file_not_read path) found
  done (record { path = codes "main/binary-" ++ (name ++ codes "/Packages"); content = content })

-- `writeReleaseFile`
unfoldable pub write_release_file : Host → Sums → Text → Build Unit
write_release_file host sums repo_dir = do
  amd64 ← read_index host repo_dir (codes "amd64")
  all ← read_index host repo_dir (codes "all")
  write_to host (join_path (repo_dir ∷ codes "dists" ∷ codes "offline" ∷ codes "Release" ∷ []))
      (release_text sums (amd64 ∷ all ∷ []))

-- `writeTrimmedRepositoryMetadata`
unfoldable pub write_trimmed_repository_metadata :
    Host → Sums → Text → Text → List PackageUri → Build Unit
write_trimmed_repository_metadata host sums apt_root repo_dir packages = do
  let list_dir = join_path (apt_root ∷ codes "var/lib/apt/lists" ∷ [])
  entries ← ask (λ h. host.list_dir h list_dir) (listed list_dir)
  records ← lift bad_index (selected_package_index_records entries packages)
  check (λ e. e) (check_architectures records)
  write_packages host repo_dir records (codes "amd64")
  write_packages host repo_dir records (codes "all")
  write_release_file host sums repo_dir
