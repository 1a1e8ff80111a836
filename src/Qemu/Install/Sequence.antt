-- ===== src/Qemu/Install/Sequence.antt =====
-- internal/backend/qemu/qemu.go: what has happened in an installation, in its order.
use ubuntu_vm_template_build.Base.{
  ◌≡◌, refl, subst, sym, ◌⊎◌, inl, inr, Bool, true, false, not, List, [], ◌∷◌, Option, none, some,
}
use ubuntu_vm_template_build.Text.{Text}
use ubuntu_vm_template_build.Steps.{◌>>=◌, ◌>>◌, ask, check}
use ubuntu_vm_template_build.Steps.Triple.{
  Assertion, Triple, Triple-ask, Triple-check, Triple->>=, Triple-weaken,
}
use ubuntu_vm_template_build.Qemu.Host.{
  Action, start_qemu, Event, did, selected, selected_then, sent, ended_at_last, QemuHost,
}
use ubuntu_vm_template_build.Qemu.Installer.{QemuError, failed, QemuStep, act}

-- The first events stand among the others in the same order.
abbrev pub Sub : List Event → List Event → Type 0
Sub [] h = Unit
Sub (e ∷ es) [] = ⊥
Sub (e ∷ es) (x ∷ h) = ((e ≡ x) × Sub es h) ⊎ Sub (e ∷ es) h

pub Sub-cons : (es h : List Event) (x : Event) → Sub es h → Sub es (x ∷ h)
Sub-cons [] h x s = tt
Sub-cons (e ∷ es) h x s = inr s

pub Sub-tail : (e : Event) (es h : List Event) → Sub (e ∷ es) h → Sub es h
Sub-tail e es [] s = absurd s
Sub-tail e es (x ∷ h) (inl (_, s)) = Sub-cons es h x s
Sub-tail e es (x ∷ h) (inr s) = Sub-cons es h x (Sub-tail e es h s)

abbrev pub is_start : Action → Bool
is_start (start_qemu args) = true
is_start _ = false

-- Neither the start of QEMU nor what comes behind it.
abbrev pub is_harmless : Event → Bool
is_harmless (did a r) = not (is_start a)
is_harmless (selected f) = false
is_harmless (selected_then s) = false
is_harmless (sent s r) = false
is_harmless (ended_at_last e) = false
is_harmless _ = true

-- `P` is an assertion that the events before the start of QEMU keep.
module _ (P : Assertion Event)
    (keep : (e : Event) (h : List Event) → is_harmless e ≡ true → P h → P (e ∷ h)) where
  abbrev pub At : List Event → Assertion Event
  At es h = P h × Sub es h

  pub At-cons :
      (es h : List Event) (e : Event) → is_harmless e ≡ true → At es h → At es (e ∷ h)
  At-cons es h e k (p, s) = (keep e h k p, Sub-cons es h e s)

  pub At-add :
      (es h : List Event) (e : Event) → is_harmless e ≡ true → At es h → At (e ∷ es) (e ∷ h)
  At-add es h e k (p, s) = (keep e h k p, inl (refl, s))

  pub act-At :
      (host : QemuHost) (a : Action) (es : List Event)
      → is_start a ≡ false
      → Triple (At es) (act host a) (λ _. At (did a none ∷ es)) P
  unfolding act
  act-At host a es k =
      Triple->>= {Q = λ r. At (did a r ∷ es)}
        (Triple-ask _ (did a) (λ h r at. At-add es h (did a r) (rw k) at))
        λ r.
          Triple-check (failed a) r
            (λ e h at. subst (λ o. At (did a o ∷ es) h) e at)
            (λ h at. at.0)

  -- An action that need not be remembered.
  pub act-kept :
      (host : QemuHost) (a : Action) (es : List Event)
      → is_start a ≡ false
      → Triple (At es) (act host a) (λ _. At es) P
  act-kept host a es k =
      Triple-weaken (λ h at. at) (λ _ h at. (at.0, Sub-tail _ es h at.1)) (λ h p. p)
        (act-At host a es k)
