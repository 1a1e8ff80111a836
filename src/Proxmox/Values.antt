-- ===== src/Proxmox/Values.antt =====
-- `url.Values` with one value for each key, as the backend uses it: a map from text to text.
pub mod Rows
use ubuntu_vm_template_build.Base.{
  Bool, true, false, List, [], ◌∷◌, Option, none, some, if◌then◌else◌, ◌≡◌, refl, arith, is_empty,
  inl, inr, Bool-cases, sym, ◌∙◌,
}
use ubuntu_vm_template_build.Text.{Text, equal}
use ubuntu_vm_template_build.Text.Trim.{equal_iff, equal_refl}

abbrev pub Values : Type 0
Values = List (Text × Text)

-- `values.Get(key)`, with `none` where the key is not set.
unfoldable pub get : Text → Values → Option Text
get key [] = none
get key ((k, v) ∷ values) = if equal k key then some v else get key values

-- `values.Set(key, value)`
unfoldable pub set : Text → Text → Values → Values
set key value [] = (key, value) ∷ []
set key value ((k, v) ∷ values) =
    if equal k key then (key, value) ∷ values else (k, v) ∷ set key value values

-- `if value != "" { values.Set(key, value) }`
unfoldable pub set_text : Text → Text → Values → Values
set_text key value values = if is_empty value then values else set key value values

pub get-set :
    (key other value : Text) (values : Values)
    → get other (set key value values) ≡ (if equal key other then some value else get other values)
unfolding get set
get-set key other value [] = refl
get-set key other value ((k, v) ∷ values) =
    ground (
      arith,
      equal_iff k key,
      equal_iff key other,
      equal_iff k other,
      get-set key other value values,
    )

pub get-set_text :
    (key other value : Text) (values : Values)
    → get other (set_text key value values) ≡ (
        if equal key other
        then (if is_empty value then get other values else some value)
        else get other values)
unfolding set_text
get-set_text key other value values = ground (arith, get-set key other value values)
