-- ===== src/Offline/Install/Sources.antt =====
-- internal/offlineapt/offlineapt.go: the lines of sources.list, read again.
use ubuntu_vm_template_build.Base.{
  ℕ, ◌≡◌, ◌≢◌, refl, ◌∙◌, ap, true, false, List, [], ◌∷◌, ◌++◌, map, All-map, codes, All,
  All-append, all_of, ◌==◌, sym, subst,
}
use ubuntu_vm_template_build.Text.{Text, join, split}
use ubuntu_vm_template_build.Text.Search.{join-All}
use ubuntu_vm_template_build.Text.Split.{Lacks, split-join, lacks, all_lack}
use ubuntu_vm_template_build.Offline.Install.{
  RepositorySource, install_source_line, guest_repo_path,
}
use ubuntu_vm_template_build.Offline.Install.Plain.{IsPlain-Lacks, IsSource}

abbrev first_words : List Text
first_words =
    codes "deb"
    ∷ codes "[trusted=yes"
    ∷ codes "check-date=no]"
    ∷ (codes "file:" ++ guest_repo_path)
    ∷ []

-- The words of a line of sources.list.
pub source_words : RepositorySource → List Text
source_words source = first_words ++ source.suite ∷ source.components

install_source_line-join :
    (source : RepositorySource)
    → source.components ≢ []
    → install_source_line source ≡ join (source_words source) (codes " ")
unfolding install_source_line source_words join
install_source_line-join source h = go source.components h
  where
    go :
        (components : List Text)
        → components ≢ []
        → install_source_line (record source { components = components })
          ≡ join (source_words (record source { components = components })) (codes " ")
    go [] h = absurd (h refl)
    go (c ∷ cs) h = refl

source_words-Lacks :
    (source : RepositorySource) (sep : ℕ)
    → all_of (lacks sep) first_words ≡ true
    → Lacks sep source.suite
    → All (Lacks sep) source.components
    → All (Lacks sep) (source_words source)
unfolding source_words
source_words-Lacks source sep h s cs =
    All-append (Lacks sep) first_words (source.suite ∷ source.components)
      (all_lack sep first_words h) (s, cs)

pub install_source_line-words :
    (source : RepositorySource)
    → IsSource source
    → (split (install_source_line source) b' ' ≡ source_words source)
      × Lacks b'\n' (install_source_line source)
unfolding source_words
install_source_line-words source h =
    let plain = IsPlain-Lacks source.suite h.suite in
    let line = install_source_line-join source h.has_components in
    (
      ap (λ l. split l b' ') line
          ∙ split-join (source_words source) b' ' (cc) (
              source_words-Lacks source b' ' refl plain.0
                (All-map (λ v p. (IsPlain-Lacks v p).0) _ h.components)),
      subst (Lacks b'\n') (sym line) (
          join-All (λ c. (c == b'\n') ≡ false) (source_words source) (codes " ") (refl, tt)
            (source_words-Lacks source b'\n' refl plain.1
              (All-map (λ v p. (IsPlain-Lacks v p).1) _ h.components))),
    )

pub map-lines :
    (sources : List RepositorySource)
    → All IsSource sources
    → map (λ line. split line b' ') (map install_source_line sources) ≡ map source_words sources
map-lines [] k = refl
map-lines (source ∷ sources) (k, ks) =
    rw ((install_source_line-words source k).0, map-lines sources ks)
