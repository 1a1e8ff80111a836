-- ===== src/Seed/UserData/Headed.antt =====
-- internal/seediso/seediso.go: transformed user data is not empty.
use ubuntu_vm_template_build.Base.{
  ◌≡◌, refl, sym, ap, ◌∙◌, subst, inl, inr, Bool, true, false, List, [], ◌∷◌, ◌++◌, Option, none,
  some, is_empty, Bool-cases, Option-cases, Result, Result-cases, ok, err, codes,
}
use ubuntu_vm_template_build.Text.{Text, has_prefix, trim_left_by, mem_char}
use ubuntu_vm_template_build.Common.Yaml.{Node, ensure_cloud_config_header}
use ubuntu_vm_template_build.Offline.Install.{InstallConfig}
use ubuntu_vm_template_build.Seed.UserData.{
  UserDataError, transform_user_data, transform_decoded, transform_root, encoded,
}

ensure_cloud_config_header-full : (s : Text) → is_empty (ensure_cloud_config_header s) ≡ false
unfolding ensure_cloud_config_header has_prefix trim_left_by
ensure_cloud_config_header-full [] = refl
ensure_cloud_config_header-full (c ∷ s) =
    elim
      (Bool-cases
        (has_prefix (trim_left_by (λ c. mem_char c (codes " \t\r\n")) (c ∷ s))
          (codes "#cloud-config"))) [
      | inl has ↦ rw has refl
      | inr lacks ↦ rw lacks refl
    ]

encoded-full : (o : Option Text) (s : Text) → encoded o ≡ ok s → is_empty s ≡ false
unfolding encoded
encoded-full none s e = absurd (cc e)
encoded-full (some t) s e =
    let same : ensure_cloud_config_header t ≡ s = cc e in
    subst (λ x. is_empty x ≡ false) same (ensure_cloud_config_header-full t)

transform_decoded-full :
    (encode : Node → Option Text) (install : InstallConfig) (o : Option Node) (s : Text)
    → transform_decoded encode install o ≡ ok s
    → is_empty s ≡ false
unfolding transform_decoded
transform_decoded-full encode install none s e = absurd (cc e)
transform_decoded-full encode install (some root) s e =
    elim (Result-cases (transform_root install root)) [
      | inl (changed, good) ↦ encoded-full (encode changed) s (rw good at e)
      | inr (bad, failed) ↦ absurd (cc (rw failed at e))
    ]

pub transform_user_data-full :
    (decode : Text → Option Node) (encode : Node → Option Text) (install : InstallConfig)
    (user_data s : Text)
    → transform_user_data decode encode install user_data ≡ ok s
    → is_empty s ≡ false
unfolding transform_user_data
transform_user_data-full decode encode install user_data s e =
    transform_decoded-full encode install (decode user_data) s e
