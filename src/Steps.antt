-- ===== src/Steps.antt =====
-- Code that calls what lies outside the program: a step takes the calls so far and returns a result
-- or an error, and the calls then. An answer is a function of the calls before it.
pub mod Triple
use ubuntu_vm_template_build.Base.{Bool, List, [], ◌∷◌, Option, none, some, Result, ok, err}

-- The newest call first.
abbrev pub Step : Type 0 → Type 0 → Type 0 → Type 0
Step Event Error A = List Event → Result Error A × List Event

module _ {Event Error : Type 0} where
  unfoldable pub done : {A : Type 0} → A → Step Event Error A
  done a h = (ok a, h)

  unfoldable pub fail : {A : Type 0} → Error → Step Event Error A
  fail e h = (err e, h)

  abbrev pub then_do :
      {A B : Type 0}
      → Result Error A × List Event
      → (A → Step Event Error B)
      → Result Error B × List Event
  then_do (ok a, h) f = f a h
  then_do (err e, h) f = (err e, h)

  infixl 5 ◌>>=◌ ◌>>◌
  unfoldable pub ◌>>=◌ :
      {A B : Type 0} → Step Event Error A → (A → Step Event Error B) → Step Event Error B
  ◌>>=◌ m f h = then_do (m h) f

  unfoldable pub ◌>>◌ :
      {A B : Type 0} → Step Event Error A → Step Event Error B → Step Event Error B
  unfolding ◌>>=◌
  m >> k = m >>= λ _. k

  -- A call, with its answer behind it in the history.
  unfoldable pub ask : {R : Type 0} → (List Event → R) → (R → Event) → Step Event Error R
  ask answer event h = let r = answer h in (ok r, event r ∷ h)

  -- An answer that there is, or the error.
  unfoldable pub expect : {A : Type 0} → Error → Option A → Step Event Error A
  unfolding done fail
  expect e none = fail e
  expect e (some a) = done a

  -- A check that returns nil or an error.
  unfoldable pub check : {E : Type 0} → (E → Error) → Option E → Step Event Error Unit
  unfolding done fail
  check wrap none = done tt
  check wrap (some e) = fail (wrap e)

  -- A result of code that calls nothing.
  unfoldable pub lift : {E A : Type 0} → (E → Error) → Result E A → Step Event Error A
  unfolding done fail
  lift wrap (ok a) = done a
  lift wrap (err e) = fail (wrap e)
