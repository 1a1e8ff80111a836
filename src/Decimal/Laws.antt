-- ===== src/Decimal/Laws.antt =====
-- Decimal notation is read back.
use ubuntu_vm_template_build.Base.{
  ℕ, zero, suc, ◌+◌, ◌-◌, ◌*◌, ◌/◌, ◌<◌, ◌≡◌, ◌∙◌, sym, ap, inl, inr, [], ◌∷◌, ltb, arith,
  Bool-cases,
}
use ubuntu_vm_template_build.Text.{Text}
use ubuntu_vm_template_build.Decimal.{digits_onto, digits}

-- The number that digits spell behind `n`.
abbrev pub spelled : ℕ → Text → ℕ
spelled n [] = n
spelled n (c ∷ ds) = spelled (n * 10 + (c - b'0')) ds

spelled-digits_onto :
    (fuel n : ℕ) (out : Text) → n < fuel → spelled 0 (digits_onto fuel n out) ≡ spelled n out
unfolding digits_onto
spelled-digits_onto zero n out h = absurd (omega arith)
spelled-digits_onto (suc fuel) n out h = elim (Bool-cases (ltb n 10)) [
  | inl small ↦ rw small (ap (λ m. spelled m out) (omega arith))
  | inr large ↦
      rw large
        (spelled-digits_onto fuel (n / 10) _ (ground arith) ∙ ap (λ m. spelled m out) (omega arith))
]

pub spelled-digits : (n : ℕ) → spelled 0 (digits n) ≡ n
unfolding digits
spelled-digits n = spelled-digits_onto (suc n) n [] (omega arith)

pub digits-injective : (m n : ℕ) → digits m ≡ digits n → m ≡ n
digits-injective m n h = sym (spelled-digits m) ∙ ap (spelled 0) h ∙ spelled-digits n
