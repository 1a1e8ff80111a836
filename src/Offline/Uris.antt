-- ===== src/Offline/Uris.antt =====
-- internal/offlineapt/offlineapt.go: the packages that apt would download, from what it prints.
pub mod Paths
pub mod Ordered
use ubuntu_vm_template_build.Base.{
  ℕ, Bool, true, false, not, ◌&&◌, ◌||◌, List, [], ◌∷◌, ◌++◌, map, Option, none, some, suc, drop,
  if◌then◌else◌, is_empty, codes, ◌==◌, Result, ok, err, and_then,
}
use ubuntu_vm_template_build.Text.{
  Text, trim_space, has_prefix, contains, index, split, cut, fields, is_among,
}
use ubuntu_vm_template_build.Text.Order.{sort_by}
use ubuntu_vm_template_build.Text.Path.{clean, base}

pub record PackageUri : Type 0 where
  pub uri : Text
  pub download_name : Text
  pub relative_path : Text

pub data UriError : Type 0 where
  no_closing_quote bad_uri no_pool : Text → UriError
  unsafe_path : Text → Text → UriError

-- `strings.TrimPrefix(s, "/")`
abbrev pub trim_slash : Text → Text
trim_slash [] = []
trim_slash (c ∷ s) = if c == b'/' then s else c ∷ s

-- The test of a path that `packageURIPath` ends with.
abbrev pub safe_path : Text → Text → Result UriError Text
safe_path raw_uri rel =
    if not (has_prefix rel (codes "pool/")) || contains rel (codes "../")
    then err (unsafe_path raw_uri rel)
    else ok rel

abbrev pub path_from_pool : Text → Text → Option ℕ → Result UriError Text
path_from_pool raw_uri uri_path none = err (no_pool raw_uri)
path_from_pool raw_uri uri_path (some i) =
    safe_path raw_uri (clean (trim_slash (drop (suc i) uri_path)))

unfoldable pub path_of_uri : Text → Option Text → Result UriError Text
unfolding index
path_of_uri raw_uri none = err (bad_uri raw_uri)
path_of_uri raw_uri (some uri_path) =
    path_from_pool raw_uri uri_path (index uri_path (codes "/pool/"))

-- `packageURIPath`. The path that `url.Parse`, `EscapedPath` and `url.PathUnescape` make of a URI is
-- an argument, with `none` for their errors.
unfoldable pub package_uri_path : (Text → Option Text) → Text → Result UriError Text
unfolding path_of_uri
package_uri_path unescaped_path raw_uri = path_of_uri raw_uri (unescaped_path raw_uri)

-- The name of the first field, if there is one.
abbrev pub base_of_first : List Text → Text
base_of_first [] = []
base_of_first (field ∷ rest) = base field

abbrev pub or_base_of : Text → Text → Text
or_base_of name rel = if is_empty name then base rel else name

-- What stands behind the first quote, split at the second.
unfoldable pub parse_parts :
    (Text → Option Text) → Text → Option (Text × Text) → Result UriError (Option PackageUri)
unfolding package_uri_path
parse_parts unescaped_path line none = err (no_closing_quote line)
parse_parts unescaped_path line (some (raw_uri, rest)) =
    and_then (package_uri_path unescaped_path raw_uri) λ rel. ok (
      some (record {
        uri = raw_uri;
        download_name = or_base_of (base_of_first (fields (trim_space rest))) rel;
        relative_path = rel;
      }))

unfoldable pub parse_trimmed : (Text → Option Text) → Text → Result UriError (Option PackageUri)
unfolding parse_parts cut
parse_trimmed unescaped_path [] = ok none
parse_trimmed unescaped_path (c ∷ quoted) =
    if c == b'\'' then parse_parts unescaped_path (c ∷ quoted) (cut quoted b'\'') else ok none

-- A line's URI; `none` for a line that is skipped.
unfoldable pub parse_line : (Text → Option Text) → Text → Result UriError (Option PackageUri)
unfolding parse_trimmed
parse_line unescaped_path line = parse_trimmed unescaped_path (trim_space line)

-- What a line adds to the packages, where `skipped` is the rest of the loop without it and `rest`
-- the rest behind it.
abbrev pub add_package :
    List Text
    → Option PackageUri
    → Result UriError (List PackageUri)
    → (Text → Result UriError (List PackageUri))
    → Result UriError (List PackageUri)
add_package seen none skipped rest = skipped
add_package seen (some pkg) skipped rest =
    if is_among pkg.relative_path seen
    then skipped
    else and_then (rest pkg.relative_path) λ out. ok (pkg ∷ out)

-- The loop over the lines, with the paths that have been seen.
unfoldable pub parse_lines :
    (Text → Option Text) → List Text → List Text → Result UriError (List PackageUri)
unfolding parse_line
parse_lines unescaped_path seen [] = ok []
parse_lines unescaped_path seen (line ∷ lines) = and_then (parse_line unescaped_path line) λ parsed.
    add_package seen parsed (parse_lines unescaped_path seen lines)
      λ path. parse_lines unescaped_path (path ∷ seen) lines

unfoldable pub parse_package_uris : (Text → Option Text) → Text → Result UriError (List PackageUri)
parse_package_uris unescaped_path data_text =
    and_then (parse_lines unescaped_path [] (split data_text b'\n'))
      λ out. ok (sort_by (λ pkg. pkg.relative_path) out)

unfoldable pub package_relative_paths : List PackageUri → List Text
package_relative_paths packages = sort_by (λ path. path) (map (λ pkg. pkg.relative_path) packages)
