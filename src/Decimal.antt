-- ===== src/Decimal.antt =====
-- `strconv.Itoa`: a number in decimal. Every round divides by ten, so one round more than the number
-- is enough.
pub mod Laws
pub mod Parse
use ubuntu_vm_template_build.Base.{
  ℕ, ℤ, pos, negsuc, zero, suc, ◌+◌, ◌/◌, ◌%◌, [], ◌∷◌, ltb, if◌then◌else◌,
}
use ubuntu_vm_template_build.Text.{Text}

unfoldable pub digits_onto : ℕ → ℕ → Text → Text
digits_onto zero n out = out
digits_onto (suc fuel) n out =
    let longer = digits_onto fuel (n / 10) ((b'0' + n % 10) ∷ out) in
    if ltb n 10 then (b'0' + n) ∷ out else longer

unfoldable pub digits : ℕ → Text
unfolding digits_onto
digits n = digits_onto (suc n) n []

unfoldable pub itoa : ℤ → Text
itoa (pos n) = digits n
itoa (negsuc n) = b'-' ∷ digits (suc n)
