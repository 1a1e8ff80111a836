-- ===== src/Proxmox/Options/Tags.antt =====
-- internal/backend/proxmox/options.go: the tags as the server reads them.
use ubuntu_vm_template_build.Base.{
  ◌≡◌, ◌≢◌, refl, ◌∙◌, inl, inr, List, [], ◌∷◌, map, none, some, codes, is_empty, map-ne, arith,
  All, Bool-cases,
}
use ubuntu_vm_template_build.Text.{Text, trim_space, split, join, mem_char, contains_any}
use ubuntu_vm_template_build.Text.Split.{Lacks, split-join, contains_any-Lacks}
use ubuntu_vm_template_build.Proxmox.Values.{Values, get}
use ubuntu_vm_template_build.Proxmox.Values.Rows.{joined}
use ubuntu_vm_template_build.Proxmox.Options.{
  OptionsConfig, normalize, validate, check_options, check_tags,
}
use ubuntu_vm_template_build.Proxmox.Options.Build.{built, build_options_values}
use ubuntu_vm_template_build.Proxmox.Options.Sent.{build_options_values-Holds}

check_tags-Lacks : (tags : List Text) → check_tags tags ≡ none → All (Lacks b';') tags
unfolding check_tags mem_char
check_tags-Lacks [] h = tt
check_tags-Lacks (tag ∷ tags) h = elim (Bool-cases (is_empty tag)) [
  | inl blank ↦ cc (rw blank at h)
  | inr text ↦ elim (Bool-cases (contains_any tag (codes ",;"))) [
    | inl bad ↦ cc (rw (text, bad) at h)
    | inr good ↦ (
      contains_any-Lacks tag (codes ",;") b';' refl good,
      check_tags-Lacks tags (rw (text, good) at h),
    )
  ]
]

check_options-check_tags : (c : OptionsConfig) → check_options c ≡ none → check_tags c.tags ≡ none
unfolding check_options
check_options-check_tags c h = ground arith

joined-some :
    (parts : List Text) (sep : Text) → parts ≢ [] → joined parts sep ≡ some (join parts sep)
joined-some [] sep h = absurd (h refl)
joined-some (p ∷ parts) sep h = refl

-- The tags that are sent, split at `;`, are the configuration's tags without the spaces round each.
pub build_options_values-tags :
    (c : OptionsConfig) (values : Values)
    → c.tags ≢ []
    → build_options_values c ≡ built values
    → (sent : Text) × (get (codes "tags") values ≡ some sent)
      × (split sent b';' ≡ map trim_space c.tags)
unfolding normalize validate
build_options_values-tags c values ne h =
    let tags = map trim_space c.tags in
    let (valid, holds) = build_options_values-Holds c values h in
    let lacks : All (Lacks b';') tags =
      check_tags-Lacks tags (check_options-check_tags (normalize c) valid) in
    (
      join tags (codes ";"),
      holds.entries.1.0 ∙ joined-some tags (codes ";") (map-ne trim_space c.tags ne),
      split-join tags b';' (map-ne trim_space c.tags ne) lacks,
    )
