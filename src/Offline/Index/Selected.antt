-- ===== src/Offline/Index/Selected.antt =====
-- internal/offlineapt/offlineapt.go: the records of the downloaded packages.
use ubuntu_vm_template_build.Base.{
  ◌≡◌, refl, inl, inr, subst, true, false, not, ◌||◌, List, [], ◌∷◌, map, Option, none, some,
  is_empty, codes, ok, All, OneOf, Bool-cases, Result-cases, arith,
}
use ubuntu_vm_template_build.Text.{Text, trim_space, contains, equal, is_among}
use ubuntu_vm_template_build.Text.Trim.{equal_iff}
use ubuntu_vm_template_build.Offline.Uris.{PackageUri, package_relative_paths}
use ubuntu_vm_template_build.Offline.Index.{
  PackageIndexRecord, ListEntry, package_index_paragraphs, package_index_field,
  normalize_package_filename, lookup_record, text_of, add_paragraph, add_paragraphs, add_content,
  add_entries, with_text, records_of_paths, selected_package_index_records,
}

-- The record is one of the paragraphs, with the path and the architecture that it names.
pub record IsIndexed (paragraphs : List Text) (r : PackageIndexRecord) : Type 0 where
  pub paragraph : OneOf r.text paragraphs
  pub filename :
      normalize_package_filename (package_index_field r.text (codes "Filename")) ≡ r.relative_path
  pub architecture : trim_space (package_index_field r.text (codes "Architecture")) ≡ r.architecture
  pub has_architecture : is_empty r.architecture ≡ false

-- The record comes from a package index of the directory.
pub record IsSelected (entries : List ListEntry) (r : PackageIndexRecord) : Type 0 where
  pub entry : ListEntry
  pub listed : OneOf entry entries
  pub is_file : entry.is_dir ≡ false
  pub is_index : contains entry.name (codes "_Packages") ≡ true
  pub index : Text
  pub content : entry.content ≡ some index
  pub indexed : IsIndexed (package_index_paragraphs index) r

module _ (K : PackageIndexRecord → Type 0) (want : List Text) where
  add_paragraph-All :
      (paragraph : Text) (found found' : List PackageIndexRecord)
      → ((r : PackageIndexRecord) → IsIndexed (paragraph ∷ []) r → K r)
      → All K found
      → add_paragraph want paragraph found ≡ ok found'
      → All K found'
  unfolding add_paragraph
  add_paragraph-All paragraph found found' k h e =
      let filename =
        normalize_package_filename (package_index_field paragraph (codes "Filename")) in
      let architecture = trim_space (package_index_field paragraph (codes "Architecture")) in
      let r : PackageIndexRecord = record {
        relative_path = filename;
        architecture = architecture;
        text = paragraph;
      } in
      elim (Bool-cases
        (not (is_among filename want) || not (is_empty (text_of (lookup_record filename found))))) [
          | inl skipped ↦ let same : found ≡ found' = cc (rw skipped at e) in subst (All K) same h
          | inr new ↦ elim (Bool-cases (is_empty architecture)) [
            | inl blank ↦ absurd (cc (rw (new, blank) at e))
            | inr full ↦
                let same : r ∷ found ≡ found' = cc (rw (new, full) at e) in
                subst (All K) same (
                  k r (record {
                    paragraph = inl refl;
                    filename = refl;
                    architecture = refl;
                    has_architecture = full;
                  }),
                  h,
                )
          ]
        ]

  IsIndexed-cons :
      (p : Text) (ps : List Text) (r : PackageIndexRecord) → IsIndexed ps r → IsIndexed (p ∷ ps) r
  IsIndexed-cons p ps r i = record {
    paragraph = inr i.paragraph;
    filename = i.filename;
    architecture = i.architecture;
    has_architecture = i.has_architecture;
  }

  IsIndexed-one :
      (p : Text) (ps : List Text) (r : PackageIndexRecord)
      → IsIndexed (p ∷ []) r
      → IsIndexed (p ∷ ps) r
  IsIndexed-one p ps r i = record {
    paragraph = first i.paragraph;
    filename = i.filename;
    architecture = i.architecture;
    has_architecture = i.has_architecture;
  }
    where
      first : OneOf r.text (p ∷ []) → OneOf r.text (p ∷ ps)
      first (inl e) = inl e
      first (inr m) = elim m [ ]

  add_paragraphs-All :
      (paragraphs : List Text) (found found' : List PackageIndexRecord)
      → ((r : PackageIndexRecord) → IsIndexed paragraphs r → K r)
      → All K found
      → add_paragraphs want paragraphs found ≡ ok found'
      → All K found'
  unfolding add_paragraphs
  add_paragraphs-All [] found found' k h e =
      let same : found ≡ found' = cc e in subst (All K) same h
  add_paragraphs-All (p ∷ ps) found found' k h e =
      elim (Result-cases (add_paragraph want p found)) [
        | inr (error, bad) ↦ absurd (cc (rw bad at e))
        | inl (more, good) ↦
            add_paragraphs-All ps more found' (λ r i. k r (IsIndexed-cons p ps r i))
              (add_paragraph-All p found more (λ r i. k r (IsIndexed-one p ps r i)) h good)
              (rw good at e)
      ]

  add_content-All :
      (name : Text) (content : Option Text) (found found' : List PackageIndexRecord)
      → ((r : PackageIndexRecord) (index : Text)
          → content ≡ some index
          → IsIndexed (package_index_paragraphs index) r
          → K r)
      → All K found
      → add_content want name content found ≡ ok found'
      → All K found'
  add_content-All name none found found' k h e = absurd (cc e)
  add_content-All name (some index) found found' k h e =
      add_paragraphs-All (package_index_paragraphs index) found found' (λ r i. k r index refl i) h e

  add_entries-All :
      (entries : List ListEntry) (found found' : List PackageIndexRecord)
      → ((r : PackageIndexRecord) → IsSelected entries r → K r)
      → All K found
      → add_entries want entries found ≡ ok found'
      → All K found'
  unfolding add_entries
  add_entries-All [] found found' k h e = let same : found ≡ found' = cc e in subst (All K) same h
  add_entries-All (entry ∷ entries) found found' k h e =
      let later : (r : PackageIndexRecord) → IsSelected entries r → K r = λ r s. k r (record {
        entry = s.entry;
        listed = inr s.listed;
        is_file = s.is_file;
        is_index = s.is_index;
        index = s.index;
        content = s.content;
        indexed = s.indexed;
      }) in
      elim (Bool-cases (entry.is_dir || not (contains entry.name (codes "_Packages")))) [
        | inl skipped ↦ add_entries-All entries found found' later h (rw skipped at e)
        | inr index_file ↦ elim (Result-cases (add_content want entry.name entry.content found)) [
          | inr (error, bad) ↦ absurd (cc (rw (index_file, bad) at e))
          | inl (more, good) ↦
              add_entries-All entries more found' later
                (add_content-All entry.name entry.content found more
                  (λ r index c i. k r (record {
                    entry = entry;
                    listed = inl refl;
                    is_file = ground arith;
                    is_index = ground arith;
                    index = index;
                    content = c;
                    indexed = i;
                  }))
                  h good)
                (rw (index_file, good) at e)
        ]
      ]

  lookup_record-All :
      (path : Text) (found : List PackageIndexRecord) (r : PackageIndexRecord)
      → All K found
      → lookup_record path found ≡ some r
      → (r.relative_path ≡ path) × K r
  unfolding lookup_record
  lookup_record-All path [] r h e = absurd (cc e)
  lookup_record-All path (q ∷ found) r h e = elim (Bool-cases (equal q.relative_path path)) [
    | inl same ↦
        let it : q ≡ r = cc (rw same at e) in
        (
          subst (λ x. x.relative_path ≡ path) it ((equal_iff q.relative_path path).0 same),
          subst K it h.0,
        )
    | inr other ↦ lookup_record-All path found r h.1 (rw other at e)
  ]

  with_text-some :
      (path : Text) (o : Option PackageIndexRecord) (r : PackageIndexRecord)
      → with_text path o ≡ ok r
      → o ≡ some r
  with_text-some path none r e = absurd (cc e)
  with_text-some path (some q) r e = elim (Bool-cases (is_empty q.text)) [
    | inl blank ↦ absurd (cc (rw blank at e))
    | inr full ↦ cc (rw full at e)
  ]

  records_of_paths-All :
      (found : List PackageIndexRecord) (paths : List Text) (records : List PackageIndexRecord)
      → All K found
      → records_of_paths found paths ≡ ok records
      → (map (λ r. r.relative_path) records ≡ paths) × All K records
  unfolding records_of_paths
  records_of_paths-All found [] records h e =
      let same : [] ≡ records = cc e in
      subst (λ rs. (map (λ r. r.relative_path) rs ≡ []) × All K rs) same (refl, tt)
  records_of_paths-All found (path ∷ paths) records h e =
      elim (Result-cases (with_text path (lookup_record path found))) [
        | inr (error, bad) ↦ absurd (cc (rw bad at e))
        | inl (r, good) ↦ elim (Result-cases (records_of_paths found paths)) [
          | inr (error, bad) ↦ absurd (cc (rw (good, bad) at e))
          | inl (rest, rest_good) ↦
              let same : r ∷ rest ≡ records = cc (rw (good, rest_good) at e) in
              let (named, kept) =
                lookup_record-All path found r h
                  (with_text-some path (lookup_record path found) r good) in
              let (paths_named, all_kept) = records_of_paths-All found paths rest h rest_good in
              subst (λ rs. (map (λ r. r.relative_path) rs ≡ path ∷ paths) × All K rs) same
                (cc, (kept, all_kept))
        ]
      ]

-- If records are selected, there is one for the path of each package, in the order of the paths,
-- and each is a paragraph of an index that apt has fetched, whose fields name that path and an
-- architecture.
pub selected_package_index_records-AllSelected :
    (entries : List ListEntry) (packages : List PackageUri) (records : List PackageIndexRecord)
    → selected_package_index_records (some entries) packages ≡ ok records
    → (map (λ r. r.relative_path) records ≡ package_relative_paths packages)
      × All (IsSelected entries) records
unfolding selected_package_index_records
selected_package_index_records-AllSelected entries packages records e =
    let want = map (λ pkg. pkg.relative_path) packages in
    elim (Bool-cases (is_empty want)) [
      | inl blank ↦ absurd (cc (rw blank at e))
      | inr full ↦ elim (Result-cases (add_entries want entries [])) [
        | inr (error, bad) ↦ absurd (cc (rw (full, bad) at e))
        | inl (found, good) ↦
            records_of_paths-All (IsSelected entries) want found (package_relative_paths packages)
              records
              (add_entries-All (IsSelected entries) want entries [] found (λ r s. s) tt good)
              (rw (full, good) at e)
      ]
    ]
