-- ===== src/Common/Yaml/Mapping.antt =====
-- internal/common/common.go: what is set in a mapping is found there, and nothing else changes.
use ubuntu_vm_template_build.Base.{◌≡◌, refl, ap, ◌∙◌, inl, inr, true, false, some, Bool-cases}
use ubuntu_vm_template_build.Text.{Text, equal}
use ubuntu_vm_template_build.Text.Trim.{equal_iff, equal_refl}
use ubuntu_vm_template_build.Common.Yaml.{
  Node, Nodes, node, nil, cons, kind_of, value_of, content_of, value_in, put_in, put, mapping_value,
  is_mapping,
}

-- Keys and values come in pairs.
unfoldable pub ArePaired : Nodes → Type 0
ArePaired nil = Unit
ArePaired (cons k nil) = ⊥
ArePaired (cons k (cons v rest)) = ArePaired rest

value_in-put_in :
    (content : Nodes) (key : Text) (new : Node)
    → ArePaired content
    → value_in (put_in content key new) key ≡ some new
unfolding value_in put_in ArePaired
value_in-put_in nil key new h = rw (equal_refl key) refl
value_in-put_in (cons k nil) key new h = elim h [ ]
value_in-put_in (cons k (cons v rest)) key new h = elim (Bool-cases (equal (value_of k) key)) [
  | inl same ↦ rw (same, same) refl
  | inr other ↦ rw (other, other) (value_in-put_in rest key new h)
]

value_in-put_in_other :
    (content : Nodes) (key other_key : Text) (new : Node)
    → ArePaired content
    → equal key other_key ≡ false
    → value_in (put_in content key new) other_key ≡ value_in content other_key
unfolding value_in put_in ArePaired
value_in-put_in_other nil key other_key new h e = rw e refl
value_in-put_in_other (cons k nil) key other_key new h e = elim h [ ]
value_in-put_in_other (cons k (cons v rest)) key other_key new h e =
    elim (Bool-cases (equal (value_of k) key)) [
      | inl same ↦
          let differs : equal (value_of k) other_key ≡ false =
            ap (λ t. equal t other_key) ((equal_iff (value_of k) key).0 same) ∙ e in
          rw (same, differs) refl
      | inr other ↦ rw (other, value_in-put_in_other rest key other_key new h e) refl
    ]

ArePaired-put_in :
    (content : Nodes) (key : Text) (new : Node)
    → ArePaired content
    → ArePaired (put_in content key new)
unfolding put_in ArePaired
ArePaired-put_in nil key new h = tt
ArePaired-put_in (cons k nil) key new h = elim h [ ]
ArePaired-put_in (cons k (cons v rest)) key new h = elim (Bool-cases (equal (value_of k) key)) [
  | inl same ↦ rw same h
  | inr other ↦ rw other (ArePaired-put_in rest key new h)
]

-- A mapping as the decoder makes it.
pub record IsMapping (n : Node) : Type 0 where
  pub kind : is_mapping (kind_of n) ≡ true
  pub paired : ArePaired (content_of n)

pub put-IsMapping : (n : Node) (key : Text) (new : Node) → IsMapping n → IsMapping (put n key new)
put-IsMapping (node kind tag value content) key new h = record {
  kind = h.kind;
  paired = ArePaired-put_in content key new h.paired;
}

-- The value that is put at a key is found there.
pub mapping_value-put :
    (n : Node) (key : Text) (new : Node)
    → IsMapping n
    → mapping_value (put n key new) key ≡ some new
unfolding mapping_value
mapping_value-put (node kind tag value content) key new h =
    rw h.kind (value_in-put_in content key new h.paired)

-- The values at other keys stay.
pub mapping_value-put_other :
    (n : Node) (key other_key : Text) (new : Node)
    → IsMapping n
    → equal key other_key ≡ false
    → mapping_value (put n key new) other_key ≡ mapping_value n other_key
unfolding mapping_value
mapping_value-put_other (node kind tag value content) key other_key new h e =
    rw h.kind (value_in-put_in_other content key other_key new h.paired e)
