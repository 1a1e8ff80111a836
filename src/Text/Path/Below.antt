-- ===== src/Text/Path/Below.antt =====
-- Paths joined with others, below a directory.
use mathlib.Core.List.{reverse, reverse-append, reverse-reverse}
use ubuntu_vm_template_build.Base.{
  ℕ, ◌≡◌, refl, inl, inr, ◌∙◌, ap, subst, Bool, true, false, List, [], ◌∷◌, ◌++◌, if◌then◌else◌,
  is_empty, codes, All, Bool-cases,
}
use ubuntu_vm_template_build.Text.{Text, has_prefix, split, split_from, join}
use ubuntu_vm_template_build.Text.Split.{split_from-both}
use ubuntu_vm_template_build.Text.Path.{
  push, push_all, clean_parts, clean, is_rooted, or_dot, join_path,
}
use ubuntu_vm_template_build.Text.Path.Names.{IsName, push_all-AllNames, split-join_names}

push_all-append :
    (rooted : Bool) (xs ys stack : List Text)
    → push_all rooted (xs ++ ys) stack ≡ push_all rooted ys (push_all rooted xs stack)
unfolding push_all
push_all-append rooted [] ys stack = refl
push_all-append rooted (x ∷ xs) ys stack = push_all-append rooted xs ys (push rooted x stack)

is_rooted-append :
    (path rest : Text) → is_empty path ≡ false → is_rooted (path ++ rest) ≡ is_rooted path
unfolding has_prefix
is_rooted-append [] rest h = absurd (cc h)
is_rooted-append (c ∷ path) rest h = refl

-- A path of names behind another path adds its names to that path's parts.
pub clean_parts-below :
    (dir : Text) (names : List Text)
    → is_empty dir ≡ false
    → All IsName names
    → is_empty (join names (codes "/")) ≡ false
    → clean_parts (dir ++ b'/' ∷ join names (codes "/")) ≡ clean_parts dir ++ names
unfolding clean_parts split
clean_parts-below dir names full h k =
    let rooted = is_rooted dir in
    let stack = push_all rooted (split_from [] dir b'/') [] in
    rw (
      is_rooted-append dir (b'/' ∷ join names (codes "/")) full,
      split_from-both [] dir (join names (codes "/")) b'/',
      split-join_names names h k,
      push_all-append rooted (split_from [] dir b'/') names [],
      push_all-AllNames rooted names stack h,
      reverse-append (reverse names) stack,
      reverse-reverse names,
    )

is_empty-append : (s t : Text) → is_empty s ≡ false → is_empty (s ++ t) ≡ false
is_empty-append [] t h = absurd (cc h)
is_empty-append (c ∷ s) t h = refl

is_empty-behind : (s : Text) (c : ℕ) (t : Text) → is_empty (s ++ (c ∷ t)) ≡ false
is_empty-behind [] c t = refl
is_empty-behind (d ∷ s) c t = refl

is_empty-join :
    (parts names : List Text)
    → is_empty (join names (codes "/")) ≡ false
    → is_empty (join (parts ++ names) (codes "/")) ≡ false
unfolding join
is_empty-join [] names h = h
is_empty-join (p ∷ []) [] h = absurd (cc h)
is_empty-join (p ∷ []) (n ∷ names) h = is_empty-behind p b'/' _
is_empty-join (p ∷ q ∷ parts) names h = is_empty-behind p b'/' _

or_dot_id : (s : Text) → is_empty s ≡ false → or_dot s ≡ s
or_dot_id [] h = absurd (cc h)
or_dot_id (c ∷ s) h = refl

is_empty-either :
    (rooted : Bool) (s : Text)
    → is_empty s ≡ false
    → is_empty ((if rooted then codes "/" else []) ++ s) ≡ false
is_empty-either true s h = refl
is_empty-either false s h = h

-- A path by its root and its parts.
abbrev pub of_parts : Bool → List Text → Text
of_parts rooted parts = (if rooted then codes "/" else []) ++ join parts (codes "/")

clean-of_parts : (path : Text) → clean path ≡ or_dot (of_parts (is_rooted path) (clean_parts path))
unfolding clean
clean-of_parts path = refl

join_path-clean :
    (dir rel : Text)
    → is_empty dir ≡ false
    → is_empty rel ≡ false
    → join_path (dir ∷ rel ∷ []) ≡ clean (dir ++ b'/' ∷ rel)
unfolding join_path join
join_path-clean dir rel h k = rw (h, k)

-- `filepath.Join` of a directory and a path of names below it.
pub join_path-below :
    (dir rel : Text)
    → is_empty dir ≡ false
    → All IsName (split rel b'/')
    → join (split rel b'/') (codes "/") ≡ rel
    → is_empty rel ≡ false
    → join_path (dir ∷ rel ∷ []) ≡ of_parts (is_rooted dir) (clean_parts dir ++ split rel b'/')
join_path-below dir rel full names joined rel_full =
    let parts : clean_parts (dir ++ b'/' ∷ rel) ≡ clean_parts dir ++ split rel b'/' =
      subst (λ r. clean_parts (dir ++ b'/' ∷ r) ≡ clean_parts dir ++ split rel b'/') joined
        (clean_parts-below dir (split rel b'/') full names (ap is_empty joined ∙ rel_full)) in
    join_path-clean dir rel full rel_full
    ∙ clean-of_parts (dir ++ b'/' ∷ rel)
    ∙ ap (λ ps. or_dot (of_parts (is_rooted (dir ++ b'/' ∷ rel)) ps)) parts
    ∙ ap (λ r. or_dot (of_parts r (clean_parts dir ++ split rel b'/')))
        (is_rooted-append dir (b'/' ∷ rel) full)
    ∙ or_dot_id _ (
        is_empty-either (is_rooted dir) _
          (is_empty-join (clean_parts dir) (split rel b'/') (ap is_empty joined ∙ rel_full)))

or_dot-full : (s : Text) → is_empty (or_dot s) ≡ false
or_dot-full [] = refl
or_dot-full (c ∷ s) = refl

-- Joined with a name, a path is not empty.
pub join_path-full :
    (dir rel : Text) → is_empty rel ≡ false → is_empty (join_path (dir ∷ rel ∷ [])) ≡ false
unfolding join_path clean
join_path-full dir rel h = elim (Bool-cases (is_empty dir)) [
  | inl blank ↦ rw (blank, h) (or_dot-full _)
  | inr full ↦ rw (full) (or_dot-full _)
]
