-- ===== src/Steps/Triple.antt =====
-- Steps with what holds before, after a result, and after an error.
use ubuntu_vm_template_build.Base.{
  ◌≡◌, refl, Bool, true, false, List, ◌∷◌, Option, none, some, Result, ok, err, if◌then◌else◌,
}
use ubuntu_vm_template_build.Steps.{
  Step, done, fail, then_do, ◌>>=◌, ◌>>◌, ask, expect, check, lift,
}

abbrev pub Assertion : Type 0 → Type 1
Assertion Event = List Event → Type 0

module _ {Event Error : Type 0} where
  abbrev pub Post :
      {A : Type 0} → (A → Assertion Event) → Assertion Event → Result Error A × List Event → Type 0
  Post Q F (ok a, h) = Q a h
  Post Q F (err e, h) = F h

  pub record Triple {A : Type 0} (P : Assertion Event) (m : Step Event Error A)
      (Q : A → Assertion Event) (F : Assertion Event) : Type 0 where
    pub runs : (h : List Event) → P h → Post Q F (m h)

  module _ {A : Type 0} {P F : Assertion Event} {Q : A → Assertion Event} where
    pub Triple-done :
        (a : A) → ((h : List Event) → P h → Q a h) → Triple P (done {Error = Error} a) Q F
    unfolding done
    Triple-done a k = record { runs = k }

    pub Triple-fail : (e : Error) → ((h : List Event) → P h → F h) → Triple P (fail {A = A} e) Q F
    unfolding fail
    Triple-fail e k = record { runs = k }

    pub Triple-if :
        (t : Bool) {m n : Step Event Error A}
        → (t ≡ true → Triple P m Q F)
        → (t ≡ false → Triple P n Q F)
        → Triple P (if t then m else n) Q F
    Triple-if true k l = k refl
    Triple-if false k l = l refl

    pub Triple-expect :
        (e : Error) (o : Option A)
        → ((a : A) → o ≡ some a → (h : List Event) → P h → Q a h)
        → ((h : List Event) → P h → F h)
        → Triple P (expect e o) Q F
    unfolding expect done fail
    Triple-expect e none k l = record { runs = l }
    Triple-expect e (some a) k l = record { runs = k a refl }

    pub Triple-lift :
        {E : Type 0} (wrap : E → Error) (r : Result E A)
        → ((a : A) → r ≡ ok a → (h : List Event) → P h → Q a h)
        → ((h : List Event) → P h → F h)
        → Triple P (lift wrap r) Q F
    unfolding lift done fail
    Triple-lift wrap (ok a) k l = record { runs = k a refl }
    Triple-lift wrap (err e) k l = record { runs = l }

    pub Triple-ask :
        (answer : List Event → A) (event : A → Event)
        → ((h : List Event) (a : A) → P h → Q a (event a ∷ h))
        → Triple P (ask {Error = Error} answer event) Q F
    unfolding ask
    Triple-ask answer event k = record { runs = λ h p. k h (answer h) p }

    -- A call whose answer is that of the history before it.
    pub Triple-ask_known :
        (answer : List Event → A) (event : A → Event)
        → ((h : List Event) → P h → Q (answer h) (event (answer h) ∷ h))
        → Triple P (ask {Error = Error} answer event) Q F
    unfolding ask
    Triple-ask_known answer event k = record { runs = k }

  -- What is known before without the history, or some of it, is known for the step.
  pub Triple-given :
      {A X : Type 0} {R : X → Assertion Event} {F : Assertion Event} {Q : A → Assertion Event}
      {m : Step Event Error A}
      → ((x : X) → Triple (R x) m Q F)
      → Triple (λ h. (x : X) × R x h) m Q F
  Triple-given t = record { runs = λ h (x, r). (t x).runs h r }

  pub Triple-check :
      {E : Type 0} {P F : Assertion Event} {Q : Unit → Assertion Event} (wrap : E → Error)
      (o : Option E)
      → (o ≡ none → (h : List Event) → P h → Q tt h)
      → ((h : List Event) → P h → F h)
      → Triple P (check wrap o) Q F
  unfolding check done fail
  Triple-check wrap none k l = record { runs = k refl }
  Triple-check wrap (some e) k l = record { runs = l }

  Post-then_do :
      {A B : Type 0} (Q : A → Assertion Event) (R : B → Assertion Event) (F : Assertion Event)
      (f : A → Step Event Error B)
      → ((a : A) → Triple (Q a) (f a) R F)
      → (o : Result Error A × List Event) → Post Q F o
      → Post R F (then_do o f)
  Post-then_do Q R F f u (ok a, h) q = (u a).runs h q
  Post-then_do Q R F f u (err e, h) q = q

  pub Triple->>= :
      {A B : Type 0} {P F : Assertion Event} {Q : A → Assertion Event} {R : B → Assertion Event}
      {m : Step Event Error A} {f : A → Step Event Error B}
      → Triple P m Q F
      → ((a : A) → Triple (Q a) (f a) R F)
      → Triple P (m >>= f) R F
  unfolding ◌>>=◌
  Triple->>= {P = P} {F = F} {Q = Q} {R = R} {m = m} {f = f} t u = record {
    runs = λ h p. Post-then_do Q R F f u (m h) (t.runs h p);
  }

  pub Triple->> :
      {A B : Type 0} {P F : Assertion Event} {Q : A → Assertion Event} {R : B → Assertion Event}
      {m : Step Event Error A} {n : Step Event Error B}
      → Triple P m Q F
      → ((a : A) → Triple (Q a) n R F)
      → Triple P (m >> n) R F
  unfolding ◌>>◌ ◌>>=◌
  Triple->> {P = P} {F = F} {Q = Q} {R = R} {m = m} {n = n} t u = record {
    runs = λ h p. Post-then_do Q R F (λ _. n) u (m h) (t.runs h p);
  }

  pub Triple-weaken :
      {A : Type 0} {P P' F F' : Assertion Event} {Q Q' : A → Assertion Event}
      {m : Step Event Error A}
      → ((h : List Event) → P' h → P h)
      → ((a : A) (h : List Event) → Q a h → Q' a h)
      → ((h : List Event) → F h → F' h)
      → Triple P m Q F
      → Triple P' m Q' F'
  Triple-weaken {A = A} {F = F} {F' = F'} {Q = Q} {Q' = Q'} {m = m} p q f t = record {
    runs = λ h x. kept (m h) (t.runs h (p h x));
  }
    where
      kept : (o : Result Error A × List Event) → Post Q F o → Post Q' F' o
      kept (ok a, h) x = q a h x
      kept (err e, h) x = f h x
