-- ===== src/Proxmox/Values/Rows.antt =====
-- Values as a table: keys, each with a value if it is set. Used to say what a request holds.
use ubuntu_vm_template_build.Base.{
  ◌≡◌, refl, Bool, true, false, not, ◌&&◌, List, [], ◌∷◌, Option, none, some, if◌then◌else◌,
  is_empty, arith, All, ◌∙◌,
}
use ubuntu_vm_template_build.Text.{Text, join, equal, is_among}
use ubuntu_vm_template_build.Text.Trim.{equal_iff, equal_refl}
use ubuntu_vm_template_build.Proxmox.Values.{Values, get, set, set_text, get-set}

abbrev pub Rows : Type 0
Rows = List (Text × Option Text)

abbrev pub non_empty : Text → Option Text
non_empty value = if is_empty value then none else some value

abbrev pub joined : List Text → Text → Option Text
joined parts sep = if is_empty parts then none else some (join parts sep)

abbrev pub set_row : Text → Option Text → Values → Values
set_row key none values = values
set_row key (some value) values = set key value values

-- The last row is set first.
abbrev pub set_rows : Rows → Values
set_rows [] = []
set_rows ((key, value) ∷ rows) = set_row key value (set_rows rows)

abbrev pub keys : Rows → List Text
keys [] = []
keys ((key, value) ∷ rows) = key ∷ keys rows

abbrev pub distinct : Rows → Bool
distinct [] = true
distinct ((key, value) ∷ rows) = not (is_among key (keys rows)) && distinct rows

-- The values hold what the rows say, and nothing else.
pub record Holds (rows : Rows) (values : Values) : Type 0 where
  pub entries : All (λ r. get r.0 values ≡ r.1) rows
  pub others : (key : Text) → is_among key (keys rows) ≡ false → get key values ≡ none

pub set_text-set_row :
    (key value : Text) (values : Values)
    → set_text key value values ≡ set_row key (non_empty value) values
unfolding set_text
set_text-set_row key [] values = refl
set_text-set_row key (c ∷ value) values = refl

pub get-set_row :
    (key other : Text) (value : Option Text) (values : Values)
    → equal key other ≡ false
    → get other (set_row key value values) ≡ get other values
get-set_row key other none values h = refl
get-set_row key other (some value) values h = rw (get-set key other value values, h) refl

equal_sym : (s t : Text) → equal s t ≡ equal t s
equal_sym s t = ground (arith, equal_iff s t, equal_iff t s)

set_rows-others :
    (rows : Rows) (key : Text) → is_among key (keys rows) ≡ false → get key (set_rows rows) ≡ none
unfolding get is_among
set_rows-others [] key h = refl
set_rows-others ((k, v) ∷ rows) key h =
    let other : equal k key ≡ false = ground (arith, equal_sym k key) in
    let rest : is_among key (keys rows) ≡ false = ground arith in
    get-set_row k key v (set_rows rows) other ∙ set_rows-others rows key rest

kept :
    (rows : Rows) (key : Text) (value : Option Text) (values : Values)
    → is_among key (keys rows) ≡ false
    → All (λ r. get r.0 values ≡ r.1) rows
    → All (λ r. get r.0 (set_row key value values) ≡ r.1) rows
unfolding is_among
kept [] key value values h _ = tt
kept ((k, v) ∷ rows) key value values h (e, es) =
    let other : equal key k ≡ false = ground arith in
    let rest : is_among key (keys rows) ≡ false = ground arith in
    (get-set_row key k value values other ∙ e, kept rows key value values rest es)

set_rows-entries :
    (rows : Rows) → distinct rows ≡ true → All (λ r. get r.0 (set_rows rows) ≡ r.1) rows
unfolding is_among
set_rows-entries [] h = tt
set_rows-entries ((key, none) ∷ rows) h =
    let new : is_among key (keys rows) ≡ false = ground arith in
    (set_rows-others rows key new, set_rows-entries rows (ground arith))
set_rows-entries ((key, some value) ∷ rows) h =
    let new : is_among key (keys rows) ≡ false = ground arith in
    (
      rw (get-set key key value (set_rows rows), equal_refl key) refl,
      kept rows key (some value) (set_rows rows) new (set_rows-entries rows (ground arith)),
    )

pub set_rows-Holds : (rows : Rows) → distinct rows ≡ true → Holds rows (set_rows rows)
set_rows-Holds rows h = record { entries = set_rows-entries rows h; others = set_rows-others rows }
