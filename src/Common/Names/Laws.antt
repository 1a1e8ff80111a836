-- ===== src/Common/Names/Laws.antt =====
-- internal/common/common.go: what `SafeName` returns.
use ubuntu_vm_template_build.Base.{
  ℕ, ◌≡◌, ◌≢◌, refl, inl, inr, true, false, [], ◌∷◌, map, is_empty, arith, All, all_of-All,
  Bool-cases,
}
use ubuntu_vm_template_build.Text.{Text, trim_space, is_space}
use ubuntu_vm_template_build.Text.Trim.{
  StartsOutside, EndsOutside, trim_space_solid, trim_by-StartsOutside, trim_by-EndsOutside,
  trim_by-All, trim_by_fixed,
}
use ubuntu_vm_template_build.Common.Names.{
  fallback_name, is_safe_rune, safe_rune, is_edge, clean_name, or_fallback, safe_name,
}

-- A name of letters, digits, `-`, `_` and `.`, with none of the last three at either end.
pub record IsSafeName (name : Text) : Type 0 where
  pub some_text : name ≢ []
  pub safe_runes : All (λ r. is_safe_rune r ≡ true) name
  pub starts : StartsOutside is_edge name
  pub ends : EndsOutside is_edge name

is_safe_rune-safe_rune : (r : ℕ) → is_safe_rune (safe_rune r) ≡ true
unfolding safe_rune
is_safe_rune-safe_rune r = ground arith

map-safe_rune : (s : Text) → All (λ r. is_safe_rune r ≡ true) (map safe_rune s)
map-safe_rune [] = tt
map-safe_rune (r ∷ s) = (is_safe_rune-safe_rune r, map-safe_rune s)

map-safe_rune_fixed : (s : Text) → All (λ r. is_safe_rune r ≡ true) s → map safe_rune s ≡ s
unfolding safe_rune
map-safe_rune_fixed [] _ = refl
map-safe_rune_fixed (r ∷ s) (h, hs) = rw (h, map-safe_rune_fixed s hs)

safe-is_space : (s : Text) → All (λ r. is_safe_rune r ≡ true) s → All (λ r. is_space r ≡ false) s
unfolding is_safe_rune is_space
safe-is_space [] _ = tt
safe-is_space (r ∷ s) (h, hs) = (ground arith, safe-is_space s hs)

fallback_name-IsSafeName : IsSafeName fallback_name
unfolding is_safe_rune is_edge
fallback_name-IsSafeName = record {
  some_text = cc;
  safe_runes = all_of-All is_safe_rune fallback_name refl;
  starts = refl;
  ends = refl;
}

or_fallback-IsSafeName : (s : Text) → (s ≢ [] → IsSafeName s) → IsSafeName (or_fallback s)
or_fallback-IsSafeName [] h = fallback_name-IsSafeName
or_fallback-IsSafeName (r ∷ s) h = h (cc)

clean_name-IsSafeName : (s : Text) → clean_name s ≢ [] → IsSafeName (clean_name s)
unfolding clean_name
clean_name-IsSafeName s h = record {
  some_text = h;
  safe_runes = trim_by-All is_edge (λ r. is_safe_rune r ≡ true) (map safe_rune s) (map-safe_rune s);
  starts = trim_by-StartsOutside is_edge (map safe_rune s);
  ends = trim_by-EndsOutside is_edge (map safe_rune s);
}

-- Every name is made safe.
pub safe_name-IsSafeName : (name : Text) → IsSafeName (safe_name name)
unfolding safe_name
safe_name-IsSafeName name = elim (Bool-cases (is_empty (trim_space name))) [
  | inl blank ↦ rw blank fallback_name-IsSafeName
  | inr text ↦ rw text (or_fallback-IsSafeName _ (clean_name-IsSafeName (trim_space name)))
]

-- A safe name is kept as it is.
pub safe_name_fixed : (name : Text) → IsSafeName name → safe_name name ≡ name
unfolding safe_name clean_name
safe_name_fixed [] s = absurd (s.some_text refl)
safe_name_fixed (r ∷ name) s = rw (
  trim_space_solid (r ∷ name) (safe-is_space (r ∷ name) s.safe_runes),
  map-safe_rune_fixed (r ∷ name) s.safe_runes,
  trim_by_fixed is_edge (r ∷ name) s.starts s.ends,
)
