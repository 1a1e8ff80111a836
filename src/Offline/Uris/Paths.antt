-- ===== src/Offline/Uris/Paths.antt =====
-- internal/offlineapt/offlineapt.go: the paths of the packages lie in the pool.
use ubuntu_vm_template_build.Base.{
  ℕ, ◌≡◌, refl, inl, inr, ◌∙◌, ap, sym, subst, true, false, not, ◌||◌, [], ◌∷◌, Option, none, some,
  suc, drop, is_empty, codes, ◌==◌, ok, All, Bool-cases, Result-cases, arith,
}
use ubuntu_vm_template_build.Text.{Text, has_prefix, contains, index, split, join, cut, trim_space}
use ubuntu_vm_template_build.Text.Path.{clean, clean_parts}
use ubuntu_vm_template_build.Text.Path.Names.{
  IsName, clean-AllNames, clean-relative, split-join_names,
}
use ubuntu_vm_template_build.Offline.Uris.{
  PackageUri, safe_path, trim_slash, path_from_pool, path_of_uri, package_uri_path, parse_parts,
  parse_trimmed, parse_line,
}

-- The path goes down from the directory `pool` by names alone.
pub record IsPoolPath (rel : Text) : Type 0 where
  pub in_pool : has_prefix rel (codes "pool/") ≡ true
  pub names : All IsName (split rel b'/')
  pub joined : join (split rel b'/') (codes "/") ≡ rel
  pub full : is_empty rel ≡ false

clean-IsPoolPath :
    (path : Text) → has_prefix (clean path) (codes "pool/") ≡ true → IsPoolPath (clean path)
clean-IsPoolPath path h =
    let (names, text, full) =
      clean-AllNames (codes "ool/") b'p' refl path (clean-relative path (codes "ool/") b'p' refl h)
        h in
    let parts : split (clean path) b'/' ≡ clean_parts path =
      ap (λ s. split s b'/') text
      ∙ split-join_names (clean_parts path) names (sym (ap is_empty text) ∙ full) in
    record {
      in_pool = h;
      names = subst (All IsName) (sym parts) names;
      joined = ap (λ ps. join ps (codes "/")) parts ∙ sym text;
      full = full;
    }

safe_path-ok :
    (raw_uri path rel : Text)
    → safe_path raw_uri path ≡ ok rel
    → (path ≡ rel) × (has_prefix path (codes "pool/") ≡ true)
safe_path-ok raw_uri path rel h =
    elim (Bool-cases (not (has_prefix path (codes "pool/")) || contains path (codes "../"))) [
      | inl bad ↦ absurd (cc (rw bad at h))
      | inr good ↦ (cc (rw good at h), ground arith)
    ]

path_from_pool-IsPoolPath :
    (raw_uri uri_path rel : Text) (i : Option ℕ)
    → path_from_pool raw_uri uri_path i ≡ ok rel
    → IsPoolPath rel
path_from_pool-IsPoolPath raw_uri uri_path rel none h = absurd (cc h)
path_from_pool-IsPoolPath raw_uri uri_path rel (some i) h =
    let path = trim_slash (drop (suc i) uri_path) in
    let (same, pool) = safe_path-ok raw_uri (clean path) rel h in
    subst IsPoolPath same (clean-IsPoolPath path pool)

path_of_uri-IsPoolPath :
    (raw_uri rel : Text) (path : Option Text) → path_of_uri raw_uri path ≡ ok rel → IsPoolPath rel
unfolding path_of_uri
path_of_uri-IsPoolPath raw_uri rel none h = absurd (cc h)
path_of_uri-IsPoolPath raw_uri rel (some uri_path) h =
    path_from_pool-IsPoolPath raw_uri uri_path rel (index uri_path (codes "/pool/")) h

pub package_uri_path-IsPoolPath :
    (unescaped_path : Text → Option Text) (raw_uri rel : Text)
    → package_uri_path unescaped_path raw_uri ≡ ok rel
    → IsPoolPath rel
unfolding package_uri_path
package_uri_path-IsPoolPath unescaped_path raw_uri rel h =
    path_of_uri-IsPoolPath raw_uri rel (unescaped_path raw_uri) h

parse_parts-IsPoolPath :
    (unescaped_path : Text → Option Text) (line : Text) (parts : Option (Text × Text))
    (pkg : PackageUri)
    → parse_parts unescaped_path line parts ≡ ok (some pkg)
    → IsPoolPath pkg.relative_path
unfolding parse_parts
parse_parts-IsPoolPath unescaped_path line none pkg h = absurd (cc h)
parse_parts-IsPoolPath unescaped_path line (some (raw_uri, rest)) pkg h =
    elim (Result-cases (package_uri_path unescaped_path raw_uri)) [
      | inl (rel, good) ↦
          subst IsPoolPath (cc (rw good at h))
            (package_uri_path-IsPoolPath unescaped_path raw_uri rel good)
      | inr (error, bad) ↦ absurd (cc (rw bad at h))
    ]

parse_trimmed-IsPoolPath :
    (unescaped_path : Text → Option Text) (line : Text) (pkg : PackageUri)
    → parse_trimmed unescaped_path line ≡ ok (some pkg)
    → IsPoolPath pkg.relative_path
unfolding parse_trimmed
parse_trimmed-IsPoolPath unescaped_path [] pkg h = absurd (cc h)
parse_trimmed-IsPoolPath unescaped_path (c ∷ quoted) pkg h = elim (Bool-cases (c == b'\'')) [
  | inr other ↦ absurd (cc (rw other at h))
  | inl quote ↦
      parse_parts-IsPoolPath unescaped_path (c ∷ quoted) (cut quoted b'\'') pkg (rw quote at h)
]

-- The package of a line.
pub parse_line-IsPoolPath :
    (unescaped_path : Text → Option Text) (line : Text) (pkg : PackageUri)
    → parse_line unescaped_path line ≡ ok (some pkg)
    → IsPoolPath pkg.relative_path
unfolding parse_line
parse_line-IsPoolPath unescaped_path line pkg h =
    parse_trimmed-IsPoolPath unescaped_path (trim_space line) pkg h
