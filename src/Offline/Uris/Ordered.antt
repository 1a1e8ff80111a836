-- ===== src/Offline/Uris/Ordered.antt =====
-- internal/offlineapt/offlineapt.go: the packages are in the order of their paths, each once.
use ubuntu_vm_template_build.Base.{
  ◌≡◌, inl, inr, ◌∙◌, subst, false, List, [], ◌∷◌, Option, none, some, ok, All, All-map, Bool-cases,
  Result-cases, arith,
}
use ubuntu_vm_template_build.Text.{Text, is_among, split}
use ubuntu_vm_template_build.Text.Trim.{equal_sym}
use ubuntu_vm_template_build.Text.Order.{
  sort_by, Ascending, Distinct, sort_by-All, sort_by-Ascending,
}
use ubuntu_vm_template_build.Offline.Uris.{PackageUri, parse_line, parse_lines, parse_package_uris}
use ubuntu_vm_template_build.Offline.Uris.Paths.{IsPoolPath, parse_line-IsPoolPath}

abbrev path_of : PackageUri → Text
path_of pkg = pkg.relative_path

-- Paths in the pool, different from each other and from those seen.
record AreNew (seen : List Text) (out : List PackageUri) : Type 0 where
  in_pool : All (λ pkg. IsPoolPath pkg.relative_path) out
  distinct : Distinct path_of out
  unseen : All (λ pkg. is_among pkg.relative_path seen ≡ false) out

AreNew-cons :
    (seen : List Text) (pkg : PackageUri) (out : List PackageUri)
    → IsPoolPath pkg.relative_path
    → is_among pkg.relative_path seen ≡ false
    → AreNew (pkg.relative_path ∷ seen) out
    → AreNew seen (pkg ∷ out)
unfolding Distinct is_among
AreNew-cons seen pkg out path new rest = record {
  in_pool = (path, rest.in_pool);
  distinct = (
    All-map (λ p h. equal_sym pkg.relative_path p.relative_path ∙ ground arith) out rest.unseen,
    rest.distinct,
  );
  unseen = (new, All-map (λ p h. ground arith) out rest.unseen);
}

parse_lines-AreNew :
    (unescaped_path : Text → Option Text) (seen lines : List Text) (out : List PackageUri)
    → parse_lines unescaped_path seen lines ≡ ok out
    → AreNew seen out
unfolding parse_lines Distinct
parse_lines-AreNew unescaped_path seen [] out h =
    let same : [] ≡ out = cc h in
    subst (AreNew seen) same (record { in_pool = tt; distinct = tt; unseen = tt })
parse_lines-AreNew unescaped_path seen (line ∷ lines) out h =
    elim (Result-cases (parse_line unescaped_path line)) [
      | inr (error, bad) ↦ absurd (cc (rw bad at h))
      | inl (none, skipped) ↦ parse_lines-AreNew unescaped_path seen lines out (rw skipped at h)
      | inl (some pkg, parsed) ↦ elim (Bool-cases (is_among pkg.relative_path seen)) [
        | inl old ↦ parse_lines-AreNew unescaped_path seen lines out (rw (parsed, old) at h)
        | inr new ↦
            elim (Result-cases (parse_lines unescaped_path (pkg.relative_path ∷ seen) lines)) [
              | inr (error, bad) ↦ absurd (cc (rw (parsed, new, bad) at h))
              | inl (rest, good) ↦
                  let same : pkg ∷ rest ≡ out = cc (rw (parsed, new, good) at h) in
                  subst (AreNew seen) same (
                    AreNew-cons seen pkg rest (parse_line-IsPoolPath unescaped_path line pkg parsed)
                      new
                      (parse_lines-AreNew unescaped_path (pkg.relative_path ∷ seen) lines rest
                        good))
            ]
      ]
    ]

-- Whatever apt prints, the packages that are made of it lie in the pool, reached from there by
-- names alone, so that no path leaves it; and they are in the order of their paths, none twice.
pub parse_package_uris-AllPoolPaths :
    (unescaped_path : Text → Option Text) (printed : Text) (packages : List PackageUri)
    → parse_package_uris unescaped_path printed ≡ ok packages
    → All (λ pkg. IsPoolPath pkg.relative_path) packages
      × Ascending (λ pkg. pkg.relative_path) packages
unfolding parse_package_uris
parse_package_uris-AllPoolPaths unescaped_path printed packages h =
    elim (Result-cases (parse_lines unescaped_path [] (split printed b'\n'))) [
      | inr (error, bad) ↦ absurd (cc (rw bad at h))
      | inl (out, good) ↦
          let new = parse_lines-AreNew unescaped_path [] (split printed b'\n') out good in
          let sorted : sort_by path_of out ≡ packages = cc (rw good at h) in
          (
            subst (All (λ pkg. IsPoolPath pkg.relative_path)) sorted
                (sort_by-All path_of (λ pkg. IsPoolPath pkg.relative_path) out new.in_pool),
            subst (Ascending path_of) sorted (sort_by-Ascending path_of out new.distinct),
          )
    ]
