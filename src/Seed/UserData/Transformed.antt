-- ===== src/Seed/UserData/Transformed.antt =====
-- internal/seediso/seediso.go: what the transformation changes in the user data.
use ubuntu_vm_template_build.Base.{
  ◌≡◌, refl, sym, ap, ◌∙◌, subst, inl, inr, true, false, [], Option, none, some, Bool-cases,
  Option-cases, Result-cases, codes, ok,
}
use ubuntu_vm_template_build.Text.{Text, equal}
use ubuntu_vm_template_build.Common.Yaml.{
  Node, Nodes, node, nil, cons, kind_of, content_of, joined, is_sequence, sequence, is_mapping,
  text_node, mapping_value, value_in, put, set_mapping_scalar, autoinstall_mapping_from_root,
  with_autoinstall, top_of, document, mapping, scalar, alias, autoinstall_in,
}
use ubuntu_vm_template_build.Common.Yaml.Mapping.{
  IsMapping, put-IsMapping, mapping_value-put, mapping_value-put_other,
}
use ubuntu_vm_template_build.Offline.Install
use ubuntu_vm_template_build.Offline.Install.{InstallConfig, install_late_commands}
use ubuntu_vm_template_build.Seed.UserData.{
  late_commands, nodes_of, change_late_commands, prepend_install_late_commands,
  builder_support_late_commands, append_builder_support_late_commands, transform_autoinstall,
  transform_root,
}

-- The commands in a mapping.
abbrev pub commands_of : Option Node → Nodes
commands_of none = nil
commands_of (some late) = content_of late

-- The mapping has other commands, and all else as it was.
record HasCommands (a : Node) (expected : Nodes) (b : Node) : Type 0 where
  well_formed : IsMapping b
  late : Node
  found : mapping_value b late_commands ≡ some late
  is_list : is_sequence (kind_of late) ≡ true
  commands : content_of late ≡ expected
  others :
      (key : Text) → equal late_commands key ≡ false → mapping_value b key ≡ mapping_value a key

change_late_commands-HasCommands :
    (f : Nodes → Nodes) (a : Node) (o : Option Node) (b : Node)
    → IsMapping a
    → change_late_commands f a o ≡ ok b
    → HasCommands a (f (commands_of o)) b
unfolding change_late_commands
change_late_commands-HasCommands f a none b m h =
    let new = node sequence (codes "!!seq") [] (f nil) in
    let same : put a late_commands new ≡ b = cc h in
    subst (HasCommands a (f nil)) same (record {
      well_formed = put-IsMapping a late_commands new m;
      late = new;
      found = mapping_value-put a late_commands new m;
      is_list = refl;
      commands = refl;
      others = λ key e. mapping_value-put_other a late_commands key new m e;
    })
change_late_commands-HasCommands f a (some (node kind tag value content)) b m h =
    elim (Bool-cases (is_sequence kind)) [
      | inr other ↦ absurd (cc (rw other at h))
      | inl list ↦
          let new = node kind tag value (f content) in
          let same : put a late_commands new ≡ b = cc (rw list at h) in
          subst (HasCommands a (f content)) same (record {
            well_formed = put-IsMapping a late_commands new m;
            late = new;
            found = mapping_value-put a late_commands new m;
            is_list = list;
            commands = refl;
            others = λ key e. mapping_value-put_other a late_commands key new m e;
          })
    ]

no_commands :
    (install : InstallConfig)
    → Install.enabled install ≡ false
    → (old : Nodes) → old ≡ joined (nodes_of (install_late_commands install)) old
unfolding install_late_commands nodes_of joined
no_commands install off old = rw off refl

-- What the transformation makes of the mapping `autoinstall`.
pub record IsTransformed (install : InstallConfig) (a b : Node) : Type 0 where
  pub shutdown : mapping_value b (codes "shutdown") ≡ some (text_node (codes "poweroff"))
  pub late : Node
  pub found : mapping_value b late_commands ≡ some late
  pub is_list : is_sequence (kind_of late) ≡ true
  pub commands :
      content_of late
      ≡ joined
          (joined
            (nodes_of (install_late_commands install))
            (commands_of (mapping_value a late_commands)))
          (nodes_of builder_support_late_commands)
  pub others :
      (key : Text)
      → equal (codes "shutdown") key ≡ false
      → equal late_commands key ≡ false
      → mapping_value b key ≡ mapping_value a key

-- The commands of the installation come before those that are there.
record IsPrepended (install : InstallConfig) (a b : Node) : Type 0 where
  well_formed : IsMapping b
  commands :
      commands_of (mapping_value b late_commands)
      ≡ joined
          (nodes_of (install_late_commands install))
          (commands_of (mapping_value a late_commands))
  others :
      (key : Text) → equal late_commands key ≡ false → mapping_value b key ≡ mapping_value a key

prepend_install_late_commands-IsPrepended :
    (a : Node) (install : InstallConfig) (b : Node)
    → IsMapping a
    → prepend_install_late_commands a install ≡ ok b
    → IsPrepended install a b
unfolding prepend_install_late_commands
prepend_install_late_commands-IsPrepended a install b m h =
    elim (Bool-cases (Install.enabled install)) [
      | inr off ↦
          let same : a ≡ b = cc (rw off at h) in
          subst (IsPrepended install a) same (record {
            well_formed = m;
            commands = no_commands install off (commands_of (mapping_value a late_commands));
            others = λ key e. refl;
          })
      | inl on ↦ elim (Option-cases (Install.validate install)) [
        | inr (e, bad) ↦ absurd (cc (rw (on, bad) at h))
        | inl good ↦
            let changed =
              change_late_commands-HasCommands (joined (nodes_of (install_late_commands install))) a
                (mapping_value a late_commands) b m (rw (on, good) at h) in
            record {
              well_formed = changed.well_formed;
              commands = ap commands_of changed.found ∙ changed.commands;
              others = changed.others;
            }
      ]
    ]

transform_autoinstall-IsTransformed :
    (install : InstallConfig) (a b : Node)
    → IsMapping a
    → transform_autoinstall install a ≡ ok b
    → IsTransformed install a b × IsMapping b
unfolding equal transform_autoinstall set_mapping_scalar append_builder_support_late_commands
transform_autoinstall-IsTransformed install a b m h =
    let stopped = put a (codes "shutdown") (text_node (codes "poweroff")) in
    let stops = mapping_value-put a (codes "shutdown") (text_node (codes "poweroff")) m in
    let keeps : (key : Text)
        → equal (codes "shutdown") key ≡ false
        → mapping_value stopped key ≡ mapping_value a key =
      λ key e.
        mapping_value-put_other a (codes "shutdown") key (text_node (codes "poweroff")) m e in
    elim (Result-cases (prepend_install_late_commands stopped install)) [
      | inr (e, bad) ↦ absurd (cc (rw bad at h))
      | inl (prepended, good) ↦
          let first =
            prepend_install_late_commands-IsPrepended stopped install prepended
              (put-IsMapping a (codes "shutdown") _ m) good in
          let last =
            change_late_commands-HasCommands
              (λ old. joined old (nodes_of builder_support_late_commands)) prepended
              (mapping_value prepended late_commands) b first.well_formed (rw good at h) in
          (
            record {
              shutdown =
                  last.others (codes "shutdown") refl
                  ∙ first.others (codes "shutdown") refl
                  ∙ stops;
              late = last.late;
              found = last.found;
              is_list = last.is_list;
              commands =
                  last.commands
                  ∙ ap (λ old. joined old (nodes_of builder_support_late_commands))
                      (first.commands
                        ∙ ap
                            (λ o. joined (nodes_of (install_late_commands install)) (commands_of o))
                            (keeps late_commands refl));
              others = λ key e f. last.others key f ∙ first.others key f ∙ keeps key e;
            },
            last.well_formed,
          )
    ]

top_of-with_autoinstall :
    (root top new : Node)
    → top_of root ≡ ok top
    → top_of (with_autoinstall root new) ≡ ok (put top (codes "autoinstall") new)
unfolding top_of with_autoinstall
top_of-with_autoinstall (node document tag value nil) top new h = absurd (cc h)
top_of-with_autoinstall (node document tag value (cons t rest)) top new h =
    let same : t ≡ top = cc h in ap (λ x. ok (put x (codes "autoinstall") new)) same
top_of-with_autoinstall (node sequence tag value content) top new h =
    let same : node sequence tag value content ≡ top = cc h in
    ap (λ x. ok (put x (codes "autoinstall") new)) same
top_of-with_autoinstall (node mapping tag value content) top new h =
    let same : node mapping tag value content ≡ top = cc h in
    ap (λ x. ok (put x (codes "autoinstall") new)) same
top_of-with_autoinstall (node scalar tag value content) top new h =
    let same : node scalar tag value content ≡ top = cc h in
    ap (λ x. ok (put x (codes "autoinstall") new)) same
top_of-with_autoinstall (node alias tag value content) top new h =
    let same : node alias tag value content ≡ top = cc h in
    ap (λ x. ok (put x (codes "autoinstall") new)) same

autoinstall_in-found :
    (top new : Node)
    → is_mapping (kind_of top) ≡ true
    → mapping_value top (codes "autoinstall") ≡ some new
    → is_mapping (kind_of new) ≡ true
    → autoinstall_in (ok top) ≡ ok new
unfolding autoinstall_in mapping_value
autoinstall_in-found top new h found k =
    let value : value_in (content_of top) (codes "autoinstall") ≡ some new = rw h at found in
    rw (h, value, k) refl

autoinstall_in-put :
    (top new : Node)
    → IsMapping top
    → IsMapping new
    → autoinstall_in (ok (put top (codes "autoinstall") new)) ≡ ok new
autoinstall_in-put top new m n =
    autoinstall_in-found (put top (codes "autoinstall") new) new
      (put-IsMapping top (codes "autoinstall") new m).kind
      (mapping_value-put top (codes "autoinstall") new m) n.kind

-- Of user data with a mapping at the top and one for autoinstall in it, the transformation makes
-- user data with the shutdown set to `poweroff`, with the commands of the installation of packages
-- before those that the user has and the builder's behind them, and with everything else in the two
-- mappings as it was.
pub transform_root-IsTransformed :
    (install : InstallConfig) (root top a out : Node)
    → top_of root ≡ ok top
    → IsMapping top
    → autoinstall_mapping_from_root root ≡ ok a
    → IsMapping a
    → transform_root install root ≡ ok out
    → (out_top b : Node) × (top_of out ≡ ok out_top)
      × (autoinstall_mapping_from_root out ≡ ok b)
      × IsTransformed install a b
      × ((key : Text)
          → equal (codes "autoinstall") key ≡ false
          → mapping_value out_top key ≡ mapping_value top key)
unfolding transform_root autoinstall_mapping_from_root
transform_root-IsTransformed install root top a out t mt found ma h =
    elim (Result-cases (transform_autoinstall install a)) [
      | inr (e, bad) ↦ absurd (cc (rw (found, bad) at h))
      | inl (b, good) ↦
          let (transformed, mb) = transform_autoinstall-IsTransformed install a b ma good in
          let same : with_autoinstall root b ≡ out = cc (rw (found, good) at h) in
          let out_top = put top (codes "autoinstall") b in
          let topped : top_of out ≡ ok out_top =
            ap top_of (sym same) ∙ top_of-with_autoinstall root top b t in
          (
            out_top,
            b,
            topped,
            ap autoinstall_in topped ∙ autoinstall_in-put top b mt mb,
            transformed,
            λ key e. mapping_value-put_other top (codes "autoinstall") key b mt e,
          )
    ]
