-- ===== src/Seed/Boot/Args.antt =====
-- internal/seediso/seediso.go: a boot line has its arguments after the change.
use ubuntu_vm_template_build.Base.{
  ℕ, suc, ◌≡◌, refl, sym, ap, ◌∙◌, subst, inl, inr, true, ◌&&◌, ◌||◌, List, [], ◌∷◌, ◌++◌, Option,
  none, some, if◌then◌else◌, codes, take, drop, take-append-drop, All, Bool-cases, Option-cases,
  append-nil, arith,
}
use ubuntu_vm_template_build.Text.Occurs.{has_prefix_self, contains_here}
use ubuntu_vm_template_build.Text.{Text, has_prefix, contains, index}
use ubuntu_vm_template_build.Text.Split.{Lacks, lacks_iff}
use ubuntu_vm_template_build.Seed.Boot.{
  console_tty0, console_ttys0, insert_at, insert_before_triple_dash, insert_missing,
  ensure_autoinstall_args,
}

has_prefix-before_space :
    (a b x : Text) → Lacks b' ' x → has_prefix (a ++ b' ' ∷ b) x ≡ has_prefix a x
unfolding has_prefix
has_prefix-before_space [] b [] h = refl
has_prefix-before_space [] b (d ∷ x) (h, hs) = ground arith
has_prefix-before_space (c ∷ a) b [] h = refl
has_prefix-before_space (c ∷ a) b (d ∷ x) (h, hs) = rw (has_prefix-before_space a b x hs)

-- A text without spaces is in one of the two parts round a space.
pub contains-space :
    (a b x : Text) → Lacks b' ' x → contains (a ++ b' ' ∷ b) x ≡ (contains a x || contains b x)
unfolding contains
contains-space [] b x h = rw (has_prefix-before_space [] b x h)
contains-space (c ∷ a) b x h =
    rw (has_prefix-before_space (c ∷ a) b x h, contains-space a b x h) (ground arith)

-- An index of something that starts with a space: there the text has a space.
index-space :
    (s p : Text) (i : ℕ) → index s (b' ' ∷ p) ≡ some i → (b : Text) × (drop i s ≡ b' ' ∷ b)
unfolding index has_prefix
index-space [] p i h = absurd (cc h)
index-space (c ∷ s) p i h = elim (Bool-cases (has_prefix (c ∷ s) (b' ' ∷ p))) [
  | inl here ↦
      let first : 0 ≡ i = cc (rw here at h) in
      (s, subst (λ j. drop j (c ∷ s) ≡ b' ' ∷ s) first (ground arith))
  | inr later ↦ elim (Option-cases (index s (b' ' ∷ p))) [
    | inl missing ↦ absurd (cc (rw (later, missing) at h))
    | inr (j, found) ↦
        let next : suc j ≡ i = cc (rw (later, found) at h) in
        let (b, dropped) = index-space s p j found in
        (b, subst (λ k. drop k (c ∷ s) ≡ b' ' ∷ b) next dropped)
  ]
]

-- How a line is after the insertion: the parts before and behind, each maybe empty.
record IsInserted (line arg out : Text) : Type 0 where
  kept : (x : Text) → Lacks b' ' x → contains line x ≡ true → contains out x ≡ true
  has_arg : contains out arg ≡ true

insert_at-IsInserted :
    (line arg : Text) (i : Option ℕ)
    → Lacks b' ' arg
    → ((j : ℕ) → i ≡ some j → (b : Text) × (drop j line ≡ b' ' ∷ b))
    → IsInserted line arg (insert_at line arg i)
insert_at-IsInserted line arg none lacks k = record {
  kept = λ x h c. contains-space line arg x h ∙ rw c refl;
  has_arg =
      contains-space line arg arg lacks
      ∙ rw
          (contains_here arg arg
            (subst (λ t. has_prefix t arg ≡ true) (append-nil arg) (has_prefix_self arg [])))
          (ground arith);
}
insert_at-IsInserted line arg (some j) lacks k =
    let (b, dropped) = k j refl in
    let a = take j line in
    let whole : a ++ b' ' ∷ b ≡ line = ap (λ t. a ++ t) (sym dropped) ∙ take-append-drop j line in
    let out : insert_at line arg (some j) ≡ a ++ b' ' ∷ (arg ++ b' ' ∷ b) = rw dropped refl in
    record {
      kept = λ x h c.
          let parts : (contains a x || contains b x) ≡ true =
            sym (contains-space a b x h) ∙ ap (λ t. contains t x) whole ∙ c in
          ap (λ t. contains t x) out
          ∙ contains-space a (arg ++ b' ' ∷ b) x h
          ∙ ap (λ t. contains a x || t) (contains-space arg b x h)
          ∙ ground arith;
      has_arg =
          ap (λ t. contains t arg) out
          ∙ contains-space a (arg ++ b' ' ∷ b) arg lacks
          ∙ rw (contains_here (arg ++ b' ' ∷ b) arg (has_prefix_self arg (b' ' ∷ b)))
              (ground arith);
    }

insert_before_triple_dash-IsInserted :
    (line arg : Text) → Lacks b' ' arg → IsInserted line arg (insert_before_triple_dash line arg)
unfolding insert_before_triple_dash
insert_before_triple_dash-IsInserted line arg lacks =
    insert_at-IsInserted line arg (index line (codes " ---")) lacks
      (λ j e. index-space line (codes "---") j e)

-- The argument is there after its round of the loop, and what was there stays.
round-IsInserted :
    (line arg : Text)
    → Lacks b' ' arg
    → IsInserted line arg (if contains line arg then line else insert_before_triple_dash line arg)
round-IsInserted line arg lacks = elim (Bool-cases (contains line arg)) [
  | inl has ↦ rw has (record { kept = λ x h c. c; has_arg = has })
  | inr lack ↦ rw lack (insert_before_triple_dash-IsInserted line arg lacks)
]

abbrev with_arg : Text → Text → Text
with_arg line arg = if contains line arg then line else insert_before_triple_dash line arg

insert_missing-kept :
    (args : List Text) (line : Text)
    → All (Lacks b' ') args
    → (x : Text) → Lacks b' ' x
    → contains line x ≡ true
    → contains (insert_missing line args) x ≡ true
unfolding insert_missing
insert_missing-kept [] line h x lacks c = c
insert_missing-kept (arg ∷ args) line (h, hs) x lacks c =
    insert_missing-kept args (with_arg line arg) hs x lacks
      ((round-IsInserted line arg h).kept x lacks c)

insert_missing-AllContained :
    (args : List Text) (line : Text)
    → All (Lacks b' ') args
    → All (λ arg. contains (insert_missing line args) arg ≡ true) args
unfolding insert_missing
insert_missing-AllContained [] line h = tt
insert_missing-AllContained (arg ∷ args) line (h, hs) = (
  insert_missing-kept args (with_arg line arg) hs arg h (round-IsInserted line arg h).has_arg,
  insert_missing-AllContained args (with_arg line arg) hs,
)

-- The arguments that an unattended installation needs.
pub record IsUnattended (nocloud line : Text) : Type 0 where
  pub autoinstall : contains line (codes "autoinstall") ≡ true
  pub data_source : contains line nocloud ≡ true
  pub console : contains line console_ttys0 ≡ true

pub ensure_autoinstall_args-IsUnattended :
    (line nocloud : Text)
    → Lacks b' ' nocloud
    → IsUnattended nocloud (ensure_autoinstall_args line nocloud)
unfolding ensure_autoinstall_args
ensure_autoinstall_args-IsUnattended line nocloud h =
    elim (Bool-cases (
      contains line (codes "autoinstall")
      && contains line nocloud
      && contains line console_ttys0)) [
        | inl there ↦ rw there (record {
          autoinstall = ground arith;
          data_source = ground arith;
          console = ground arith;
        })
        | inr lack ↦ rw lack (
            let args = codes "autoinstall" ∷ nocloud ∷ console_tty0 ∷ console_ttys0 ∷ [] in
            let all = insert_missing-AllContained args line (
              lacks_iff b' ' (codes "autoinstall") refl,
              (h, (lacks_iff b' ' console_tty0 refl, (lacks_iff b' ' console_ttys0 refl, tt))),
            ) in
            record { autoinstall = all.0; data_source = all.1.0; console = all.1.1.1.0 })
      ]
