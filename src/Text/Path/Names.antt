-- ===== src/Text/Path/Names.antt =====
-- Cleaned paths made of plain names.
use mathlib.Core.List.{reverse, reverse_aux, reverse-append, reverse-cons}
use ubuntu_vm_template_build.Base.{
  ℕ, ◌≡◌, refl, inl, inr, ◌∙◌, ap, sym, subst, Bool, true, false, ◌||◌, List, [], ◌∷◌, ◌++◌,
  is_empty, codes, ◌==◌, All, All-map, Bool-cases, append-nil, append_assoc, arith,
}
use ubuntu_vm_template_build.Text.{Text, equal, has_prefix, split, join}
use ubuntu_vm_template_build.Text.Split.{Lacks, split-join, split_from-Lacks}
use ubuntu_vm_template_build.Text.Trim.{equal_iff}
use ubuntu_vm_template_build.Text.Path.{up, push, push_all, clean_parts, clean, is_rooted, or_dot}

-- A part that names an entry of a directory.
pub record IsName (part : Text) : Type 0 where
  pub lacks : Lacks b'/' part
  pub full : is_empty part ≡ false
  pub not_dot : equal part (codes ".") ≡ false
  pub not_up : equal part (codes "..") ≡ false

push-IsName :
    (rooted : Bool) (part : Text) (stack : List Text)
    → IsName part
    → push rooted part stack ≡ part ∷ stack
unfolding push
push-IsName rooted part stack h = rw (h.full, h.not_dot, h.not_up)

-- Names are pushed as they are.
pub push_all-AllNames :
    (rooted : Bool) (parts stack : List Text)
    → All IsName parts
    → push_all rooted parts stack ≡ reverse parts ++ stack
unfolding push_all
push_all-AllNames rooted [] stack h = refl
push_all-AllNames rooted (part ∷ parts) stack (h, hs) =
    rw (push-IsName rooted part stack h, push_all-AllNames rooted parts (part ∷ stack) hs)
      (rw (reverse-cons part parts, append_assoc))

IsUp : Text → Type 0
IsUp part = part ≡ codes ".."

-- Names on top of some `..`.
record IsTidy (stack : List Text) : Type 0 where
  names : List Text
  ups : List Text
  are_names : All IsName names
  are_ups : All IsUp ups
  stacked : stack ≡ names ++ ups

up-IsTidy :
    (rooted : Bool) (names ups : List Text)
    → All IsName names
    → All IsUp ups
    → IsTidy (up rooted (names ++ ups))
unfolding up IsUp
up-IsTidy true [] [] hn hu = record {
  names = [];
  ups = [];
  are_names = tt;
  are_ups = tt;
  stacked = refl;
}
up-IsTidy false [] [] hn hu = record {
  names = [];
  ups = codes ".." ∷ [];
  are_names = tt;
  are_ups = (refl, tt);
  stacked = refl;
}
up-IsTidy rooted [] (u ∷ us) hn hu = rw ((equal_iff u (codes "..")).1 hu.0) (record {
  names = [];
  ups = codes ".." ∷ u ∷ us;
  are_names = tt;
  are_ups = (refl, hu);
  stacked = refl;
})
up-IsTidy rooted (n ∷ names) ups hn hu =
    rw (hn.0.not_up)
      (record { names = names; ups = ups; are_names = hn.1; are_ups = hu; stacked = refl })

push-names :
    (rooted : Bool) (part : Text) (names ups : List Text)
    → Lacks b'/' part
    → All IsName names
    → All IsUp ups
    → IsTidy (push rooted part (names ++ ups))
unfolding push
push-names rooted part names ups h hn hu =
    elim (Bool-cases (is_empty part || equal part (codes "."))) [
      | inl same ↦
          rw same
            (record { names = names; ups = ups; are_names = hn; are_ups = hu; stacked = refl })
      | inr other ↦ elim (Bool-cases (equal part (codes ".."))) [
        | inl go_up ↦ rw (other, go_up) (up-IsTidy rooted names ups hn hu)
        | inr name ↦
            rw (other, name)
              (record {
                names = part ∷ names;
                ups = ups;
                are_names = (
                  record { lacks = h; full = ground arith; not_dot = ground arith; not_up = name },
                  hn,
                );
                are_ups = hu;
                stacked = refl;
              })
      ]
    ]

push_all-IsTidy :
    (rooted : Bool) (parts stack : List Text)
    → All (Lacks b'/') parts
    → IsTidy stack
    → IsTidy (push_all rooted parts stack)
unfolding push_all
push_all-IsTidy rooted [] stack h t = t
push_all-IsTidy rooted (part ∷ parts) stack (h, hs) t =
    push_all-IsTidy rooted parts (push rooted part stack) hs (
      subst (λ s. IsTidy (push rooted part s)) (sym t.stacked)
        (push-names rooted part t.names t.ups h t.are_names t.are_ups))

All-reverse_aux :
    {A : Type 0} (P : A → Type 0) (xs ys : List A) → All P xs → All P ys → All P (reverse_aux xs ys)
All-reverse_aux P [] ys h k = k
All-reverse_aux P (x ∷ xs) ys h k = All-reverse_aux P xs (x ∷ ys) h.1 (h.0, k)

pub All-reverse : {A : Type 0} (P : A → Type 0) (xs : List A) → All P xs → All P (reverse xs)
All-reverse P xs h = All-reverse_aux P xs [] h tt

join-first :
    (part : Text) (parts : List Text)
    → (rest : Text) × (join (part ∷ parts) (codes "/") ≡ part ++ rest)
unfolding join
join-first part [] = ([], sym (append-nil part))
join-first part (next ∷ parts) = (codes "/" ++ join (next ∷ parts) (codes "/"), refl)

no_parts : IsTidy []
no_parts = record { names = []; ups = []; are_names = tt; are_ups = tt; stacked = refl }

-- A cleaned path that starts neither at the root nor with a dot.
module _ (pre : Text) (c : ℕ) (other : (c == b'.') ≡ false) where
  or_dot_full :
      (s : Text) → has_prefix (or_dot s) (c ∷ pre) ≡ true → (or_dot s ≡ s) × (is_empty s ≡ false)
  unfolding has_prefix
  or_dot_full [] h = absurd (ground arith)
  or_dot_full (d ∷ s) h = (refl, refl)

  not_up_first :
      (ups names : List Text)
      → All IsUp ups
      → has_prefix (join (ups ++ names) (codes "/")) (c ∷ pre) ≡ true
      → ups ≡ []
  unfolding has_prefix IsUp
  not_up_first [] names h k = refl
  not_up_first (u ∷ ups) names h k =
      let (rest, joined) = join-first u (ups ++ names) in
      let dots : join (u ∷ ups ++ names) (codes "/") ≡ codes ".." ++ rest =
        joined ∙ ap (λ t. t ++ rest) h.0 in
      let start : has_prefix (codes ".." ++ rest) (c ∷ pre) ≡ true =
        subst (λ t. has_prefix t (c ∷ pre) ≡ true) dots k in
      absurd (ground arith)

  -- Its parts are names, and it is these parts joined.
  pub clean-AllNames :
      (path : Text)
      → is_rooted path ≡ false
      → has_prefix (clean path) (c ∷ pre) ≡ true
      → All IsName (clean_parts path)
        × (clean path ≡ join (clean_parts path) (codes "/"))
        × (is_empty (clean path) ≡ false)
  unfolding clean clean_parts split
  clean-AllNames path relative h =
      let t =
        push_all-IsTidy false (split path b'/') [] (split_from-Lacks [] path b'/' tt) no_parts in
      let parted : clean_parts path ≡ reverse t.ups ++ reverse t.names =
        rw relative (ap reverse t.stacked ∙ reverse-append t.names t.ups) in
      let cleaned : clean path ≡ or_dot (join (clean_parts path) (codes "/")) = rw relative refl in
      let (same, full) =
        or_dot_full (join (clean_parts path) (codes "/"))
          (subst (λ s. has_prefix s (c ∷ pre) ≡ true) cleaned h) in
      let text : clean path ≡ join (clean_parts path) (codes "/") = cleaned ∙ same in
      let none_up : reverse t.ups ≡ [] =
        not_up_first (reverse t.ups) (reverse t.names) (All-reverse IsUp t.ups t.are_ups) (
          subst (λ s. has_prefix s (c ∷ pre) ≡ true) (text ∙ ap (λ ps. join ps (codes "/")) parted)
            h) in
      (
        subst (All IsName) (sym (parted ∙ ap (λ ps. ps ++ reverse t.names) none_up))
            (All-reverse IsName t.names t.are_names),
        text,
        ap is_empty text ∙ full,
      )

-- Where a cleaned path does not start at the root, the path does not.
pub clean-relative :
    (path pre : Text) (c : ℕ)
    → (c == b'/') ≡ false
    → has_prefix (clean path) (c ∷ pre) ≡ true
    → is_rooted path ≡ false
unfolding clean has_prefix
clean-relative path pre c other h = elim (Bool-cases (is_rooted path)) [
  | inl rooted ↦ absurd (ground (arith, rw rooted at h))
  | inr relative ↦ relative
]

-- Split at the separator, joined names are as they were.
pub split-join_names :
    (names : List Text)
    → All IsName names
    → is_empty (join names (codes "/")) ≡ false
    → split (join names (codes "/")) b'/' ≡ names
unfolding join
split-join_names [] h k = absurd (cc k)
split-join_names (n ∷ names) h k =
    split-join (n ∷ names) b'/' (cc) (All-map (λ m g. g.lacks) (n ∷ names) h)
