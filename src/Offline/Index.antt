-- ===== src/Offline/Index.antt =====
-- internal/offlineapt/offlineapt.go: the package indexes that apt has fetched, and the records of
-- the downloaded packages among them.
pub mod Selected
use ubuntu_vm_template_build.Base.{
  ℕ, suc, zero, ◌-◌, Bool, true, false, not, ◌&&◌, ◌||◌, List, [], ◌∷◌, ◌++◌, map, Option, none,
  some, length, if◌then◌else◌, is_empty, codes, ◌==◌, Result, ok, err, and_then,
}
use ubuntu_vm_template_build.Text.{
  Text, trim_space, trim_by, trim_right_by, has_prefix, contains, split, cut, to_lower, equal,
  is_among, mem_char,
}
use ubuntu_vm_template_build.Text.Path.{clean}
use ubuntu_vm_template_build.Offline.Uris.{PackageUri, package_relative_paths}

pub record PackageIndexRecord : Type 0 where
  pub relative_path : Text
  pub architecture : Text
  pub text : Text

-- `strings.ReplaceAll(data, "\r\n", "\n")`
unfoldable pub unix_lines : Text → Text
unix_lines [] = []
unix_lines (c ∷ s) =
    if c == b'\r' && has_prefix s (codes "\n") then unix_lines s else c ∷ unix_lines s

-- `strings.Split(data, "\n\n")`; `part` is the part begun.
unfoldable pub split_blank : Text → Text → List Text
split_blank part [] = part ∷ []
split_blank part (c ∷ []) = (part ++ c ∷ []) ∷ []
split_blank part (c ∷ d ∷ s) =
    let next = part ∷ split_blank [] s in
    let more = split_blank (part ++ c ∷ []) (d ∷ s) in
    if c == b'\n' && d == b'\n' then next else more

abbrev pub is_newline : ℕ → Bool
is_newline c = c == b'\n'

unfoldable pub solid_parts : List Text → List Text
solid_parts [] = []
solid_parts (part ∷ parts) =
    let rest = solid_parts parts in
    if is_empty (trim_space (trim_by is_newline part)) then rest else trim_by is_newline part ∷ rest

unfoldable pub package_index_paragraphs : Text → List Text
unfolding split_blank
package_index_paragraphs index = solid_parts (split_blank [] (unix_lines index))

-- A line's value, if it has the field's name; the line is cut at its first colon.
abbrev pub field_value : Text → Option (Text × Text) → Option Text
field_value name none = none
field_value name (some (key, value)) =
    if equal (to_lower (trim_space key)) (to_lower name) then some (trim_space value) else none

unfoldable pub line_field : Text → Text → Option Text
unfolding cut
line_field name line =
    if has_prefix line (codes " ") || has_prefix line (codes "\t")
    then none
    else field_value name (cut line b':')

abbrev pub or_field : Option Text → Text → Text
or_field none next = next
or_field (some value) next = value

unfoldable pub field_of_lines : Text → List Text → Text
unfolding line_field
field_of_lines name [] = []
field_of_lines name (line ∷ lines) = or_field (line_field name line) (field_of_lines name lines)

unfoldable pub package_index_field : Text → Text → Text
package_index_field paragraph name = field_of_lines name (split paragraph b'\n')

-- `strings.TrimPrefix(value, "./")`
abbrev pub trim_here : Text → Text
trim_here [] = []
trim_here (c ∷ []) = c ∷ []
trim_here (c ∷ d ∷ s) = if c == b'.' && d == b'/' then s else c ∷ d ∷ s

unfoldable pub normalize_package_filename : Text → Text
normalize_package_filename value =
    let path = clean (trim_here (trim_space value)) in if equal path (codes ".") then [] else path

pub data IndexError : Type 0 where
  no_paths lists_unreadable : IndexError
  index_unreadable no_architecture not_indexed : Text → IndexError

-- `found[path]`
unfoldable pub lookup_record : Text → List PackageIndexRecord → Option PackageIndexRecord
lookup_record path [] = none
lookup_record path (r ∷ found) =
    let rest = lookup_record path found in if equal r.relative_path path then some r else rest

abbrev pub text_of : Option PackageIndexRecord → Text
text_of none = []
text_of (some r) = r.text

-- The loop's body for one paragraph.
unfoldable pub add_paragraph :
    List Text → Text → List PackageIndexRecord → Result IndexError (List PackageIndexRecord)
add_paragraph want paragraph found =
    let filename = normalize_package_filename (package_index_field paragraph (codes "Filename")) in
    let architecture = trim_space (package_index_field paragraph (codes "Architecture")) in
    if not (is_among filename want) || not (is_empty (text_of (lookup_record filename found)))
    then ok found
    else if is_empty architecture
    then err (no_architecture filename)
    else ok
        (record { relative_path = filename; architecture = architecture; text = paragraph } ∷ found)

unfoldable pub add_paragraphs :
    List Text → List Text → List PackageIndexRecord → Result IndexError (List PackageIndexRecord)
add_paragraphs want [] found = ok found
add_paragraphs want (paragraph ∷ paragraphs) found =
    and_then (add_paragraph want paragraph found) (add_paragraphs want paragraphs)

-- An entry of the directory of lists: its name, whether it is a directory, and what reading it
-- returns.
pub record ListEntry : Type 0 where
  pub name : Text
  pub is_dir : Bool
  pub content : Option Text

abbrev pub add_content :
    List Text
    → Text
    → Option Text
    → List PackageIndexRecord
    → Result IndexError (List PackageIndexRecord)
add_content want name none found = err (index_unreadable name)
add_content want name (some text) found = add_paragraphs want (package_index_paragraphs text) found

unfoldable pub add_entries :
    List Text
    → List ListEntry
    → List PackageIndexRecord
    → Result IndexError (List PackageIndexRecord)
add_entries want [] found = ok found
add_entries want (entry ∷ entries) found =
    let skipped = add_entries want entries found in
    if entry.is_dir || not (contains entry.name (codes "_Packages"))
    then skipped
    else and_then (add_content want entry.name entry.content found) (add_entries want entries)

abbrev pub with_text : Text → Option PackageIndexRecord → Result IndexError PackageIndexRecord
with_text path none = err (not_indexed path)
with_text path (some r) = if is_empty r.text then err (not_indexed path) else ok r

unfoldable pub records_of_paths :
    List PackageIndexRecord → List Text → Result IndexError (List PackageIndexRecord)
records_of_paths found [] = ok []
records_of_paths found (path ∷ paths) =
    let rest = records_of_paths found paths in
    and_then (with_text path (lookup_record path found))
      λ r. and_then rest λ records. ok (r ∷ records)

-- `none` where the directory of lists cannot be read.
abbrev pub add_directory :
    List Text → Option (List ListEntry) → Result IndexError (List PackageIndexRecord)
add_directory want none = err lists_unreadable
add_directory want (some entries) = add_entries want entries []

unfoldable pub selected_package_index_records :
    Option (List ListEntry) → List PackageUri → Result IndexError (List PackageIndexRecord)
selected_package_index_records entries packages =
    let want = map (λ pkg. pkg.relative_path) packages in
    if is_empty want
    then err no_paths
    else and_then (add_directory want entries)
        λ found. records_of_paths found (package_relative_paths packages)
