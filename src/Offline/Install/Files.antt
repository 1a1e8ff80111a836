-- ===== src/Offline/Install/Files.antt =====
-- internal/offlineapt/offlineapt.go: the files of the installation's configuration, read again.
use ubuntu_vm_template_build.Base.{
  ℕ, ◌≡◌, ◌≢◌, refl, inl, inr, true, false, ◌||◌, List, [], ◌∷◌, ◌++◌, map, none, is_empty,
  is_empty-ne, map-ne, All-map, All-of_map, codes, All, All-append, ◌==◌, subst, Bool-cases,
  Option-cases, arith,
}
use ubuntu_vm_template_build.Text.{Text, trim_space, contains_any, split, split_from, mem_char}
use ubuntu_vm_template_build.Text.Split.{Lacks, split-join_ended, contains_any-Lacks, lacks_iff}
use ubuntu_vm_template_build.Offline.Install.{
  RepositorySource, InstallConfig, InstallFiles, written, enabled, check_packages, validate,
  install_source_line, install_source_lines, lines_file, install_files, write_install_config_dir,
  install_required_index_paths, source_index_paths, component_index_paths, index_path,
}
use ubuntu_vm_template_build.Offline.Install.Plain.{IsPlain-Lacks, IsSource, check_sources-IsSource}
use ubuntu_vm_template_build.Offline.Install.Sources.{
  source_words, install_source_line-words, map-lines,
}

-- A file of lines, split at its newlines, is the lines and an empty one.
split-lines_file :
    (ls : List Text) → ls ≢ [] → All (Lacks b'\n') ls → split (lines_file ls) b'\n' ≡ ls ++ [] ∷ []
unfolding lines_file
split-lines_file ls h k = split-join_ended ls b'\n' h k

map-append_one :
    {A B : Type 0} (f : A → B) (xs : List A) (x : A) → map f (xs ++ x ∷ []) ≡ map f xs ++ f x ∷ []
map-append_one f [] x = refl
map-append_one f (y ∷ xs) x = rw (map-append_one f xs x)

sources_list-split :
    (sources : List RepositorySource)
    → sources ≢ []
    → All IsSource sources
    → map (λ line. split line b' ') (split (lines_file (map install_source_line sources)) b'\n')
      ≡ map source_words sources ++ ([] ∷ []) ∷ []
unfolding split split_from
sources_list-split sources h k = rw (
  split-lines_file (map install_source_line sources) (map-ne install_source_line sources h) (
      All-of_map (Lacks b'\n') install_source_line sources
        (All-map (λ s p. (install_source_line-words s p).1) sources k)),
  map-append_one (λ line. split line b' ') (map install_source_line sources) [],
  map-lines sources k,
)

component_index_paths-Lacks :
    (name : Text) (components : List Text)
    → Lacks b'\n' name
    → All (Lacks b'\n') components
    → All (Lacks b'\n') (component_index_paths name components)
unfolding component_index_paths
component_index_paths-Lacks name [] h k = tt
component_index_paths-Lacks name (c ∷ cs) h (k, ks) =
    let path_lacks : (arch : Text) → Lacks b'\n' arch → Lacks b'\n' (index_path name c arch) =
      λ arch a. path5 name c arch h k a in
    (
      path_lacks (codes "amd64") (lacks_iff b'\n' (codes "amd64") refl),
      (
        path_lacks (codes "all") (lacks_iff b'\n' (codes "all") refl),
        component_index_paths-Lacks name cs h ks,
      ),
    )
  where
    N : ℕ → Type 0
    N = λ c. (c == b'\n') ≡ false

    path5 :
        (name c arch : Text)
        → Lacks b'\n' name
        → Lacks b'\n' c
        → Lacks b'\n' arch
        → Lacks b'\n' (index_path name c arch)
    path5 name c arch h k a =
        All-append N (codes "dists/") _ (lacks_iff b'\n' (codes "dists/") refl) (
          All-append N name _ h (
            All-append N (codes "/") _ (lacks_iff b'\n' (codes "/") refl) (
              All-append N c _ k (
                All-append N (codes "/binary-") _ (lacks_iff b'\n' (codes "/binary-") refl)
                  (All-append N arch _ a (lacks_iff b'\n' (codes "/Packages") refl))))))

source_index_paths-Lacks :
    (sources : List RepositorySource)
    → All IsSource sources
    → All (Lacks b'\n') (source_index_paths sources)
unfolding source_index_paths
source_index_paths-Lacks [] k = tt
source_index_paths-Lacks (source ∷ sources) (k, ks) =
    let plain = (IsPlain-Lacks source.suite k.suite).1 in
    let components = All-map (λ v p. (IsPlain-Lacks v p).1) source.components k.components in
    (
      All-append (λ c. (c == b'\n') ≡ false) (codes "dists/") _
          (lacks_iff b'\n' (codes "dists/") refl)
          (All-append (λ c. (c == b'\n') ≡ false) source.suite (codes "/Release") plain
            (lacks_iff b'\n' (codes "/Release") refl)),
      All-append (Lacks b'\n') (component_index_paths source.suite source.components)
          (source_index_paths sources)
          (component_index_paths-Lacks source.suite source.components plain components)
          (source_index_paths-Lacks sources ks),
    )

check_packages-Lacks :
    (packages : List Text) → check_packages packages ≡ none → All (Lacks b'\n') packages
unfolding check_packages mem_char
check_packages-Lacks [] h = tt
check_packages-Lacks (pkg ∷ packages) h =
    elim (Bool-cases (is_empty (trim_space pkg) || contains_any pkg (codes " \t\r\n"))) [
      | inl bad ↦ absurd (cc (rw bad at h))
      | inr good ↦ (
        contains_any-Lacks pkg (codes " \t\r\n") b'\n' refl (ground arith),
        check_packages-Lacks packages (rw good at h),
      )
    ]

record IsAccepted (c : InstallConfig) : Type 0 where
  packages : All (Lacks b'\n') c.packages
  has_packages : c.packages ≢ []
  sources : All IsSource c.sources
  has_sources : c.sources ≢ []

validate-IsAccepted : (c : InstallConfig) → enabled c ≡ true → validate c ≡ none → IsAccepted c
unfolding validate enabled
validate-IsAccepted c on h = elim (Bool-cases (is_empty c.sources)) [
  | inl blank ↦ absurd (cc (rw (on, blank) at h))
  | inr full ↦ elim (Option-cases (check_packages c.packages)) [
    | inr (e, bad) ↦ absurd (cc (rw (on, full, bad) at h))
    | inl good ↦ record {
      packages = check_packages-Lacks c.packages good;
      has_packages = is_empty-ne c.packages (ground arith);
      sources = check_sources-IsSource c.sources (rw (on, full, good) at h);
      has_sources = is_empty-ne c.sources full;
    }
  ]
]

source_index_paths-ne :
    (sources : List RepositorySource) → sources ≢ [] → source_index_paths sources ≢ []
unfolding source_index_paths
source_index_paths-ne [] h = λ _. h refl
source_index_paths-ne (s ∷ sources) h = cc

ReadsBack : InstallConfig → InstallFiles → Type 0
unfolding install_required_index_paths
ReadsBack c files =
    (split files.packages b'\n' ≡ c.packages ++ [] ∷ [])
    × (map (λ line. split line b' ') (split files.sources_list b'\n')
        ≡ map source_words c.sources ++ ([] ∷ []) ∷ [])
    × (split files.required_indexes b'\n' ≡ install_required_index_paths c ++ [] ∷ [])

install_files-ReadsBack : (c : InstallConfig) → IsAccepted c → ReadsBack c (install_files c)
unfolding ReadsBack install_files install_required_index_paths install_source_lines
install_files-ReadsBack c a = (
  split-lines_file c.packages a.has_packages a.packages,
  sources_list-split c.sources a.has_sources a.sources,
  split-lines_file (source_index_paths c.sources) (source_index_paths-ne c.sources a.has_sources)
      (source_index_paths-Lacks c.sources a.sources),
)

-- What is written for the installation reads back: the file of packages has a line for each
-- package, a line of sources.list has the words of a source with its suite and its components, and
-- the required indexes are a line each.
pub write_install_config_dir-split :
    (c : InstallConfig) (files : InstallFiles)
    → write_install_config_dir c ≡ written files
    → (split files.packages b'\n' ≡ c.packages ++ [] ∷ [])
      × (map (λ line. split line b' ') (split files.sources_list b'\n')
          ≡ map source_words c.sources ++ ([] ∷ []) ∷ [])
      × (split files.required_indexes b'\n' ≡ install_required_index_paths c ++ [] ∷ [])
unfolding write_install_config_dir ReadsBack install_required_index_paths
write_install_config_dir-split c files h = elim (Bool-cases (enabled c)) [
  | inr off ↦ absurd (cc (rw off at h))
  | inl on ↦ elim (Option-cases (validate c)) [
    | inr (e, bad) ↦ absurd (cc (rw (on, bad) at h))
    | inl good ↦
        let same : install_files c ≡ files = cc (rw (on, good) at h) in
        subst (ReadsBack c) same (install_files-ReadsBack c (validate-IsAccepted c on good))
  ]
]
