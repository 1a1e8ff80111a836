-- ===== src/Proxmox/Install/Triple.antt =====
-- Steps with what holds before, after a result, and after an error.
use ubuntu_vm_template_build.Base.{
  subst, sym, ◌≡◌, refl, Bool, true, false, ◌∷◌, Option, none, some, if◌then◌else◌,
}
use ubuntu_vm_template_build.Proxmox.Client.{Event, History, Reply, replied, no_reply}
use ubuntu_vm_template_build.Proxmox.Install.{
  Progress, Step, Outcome, returned, failed, InstallError, done, fail, then_do, ◌>>=◌, ◌>>◌,
  failing_over, or_first, expect, call, check, update, the_state, BuildState, attempt,
}

abbrev pub Assertion : Type 1
Assertion = Progress → Type 0

abbrev pub Post : {A : Type 0} → (A → Assertion) → Assertion → Outcome A × Progress → Type 0
Post Q F (returned a, s) = Q a s
Post Q F (failed e, s) = F s

pub record Triple {A : Type 0} (P : Assertion) (m : Step A) (Q : A → Assertion) (F : Assertion)
    : Type 0 where
  pub runs : (s : Progress) → P s → Post Q F (m s)

pub Post-then_do :
    {A B : Type 0} (Q : A → Assertion) (R : B → Assertion) (F : Assertion) (f : A → Step B)
    → ((a : A) → Triple (Q a) (f a) R F)
    → (o : Outcome A × Progress) → Post Q F o
    → Post R F (then_do o f)
Post-then_do Q R F f u (returned a, s) q = (u a).runs s q
Post-then_do Q R F f u (failed e, s) q = q

pub Triple->>= :
    {A B : Type 0} {P F : Assertion} {Q : A → Assertion} {R : B → Assertion} {m : Step A}
    {f : A → Step B}
    → Triple P m Q F
    → ((a : A) → Triple (Q a) (f a) R F)
    → Triple P (m >>= f) R F
unfolding ◌>>=◌
Triple->>= {P = P} {F = F} {Q = Q} {R = R} {m = m} {f = f} t u = record {
  runs = λ s p. Post-then_do Q R F f u (m s) (t.runs s p);
}

pub Triple->> :
    {A B : Type 0} {P F : Assertion} {Q : A → Assertion} {R : B → Assertion} {m : Step A}
    {n : Step B}
    → Triple P m Q F
    → ((a : A) → Triple (Q a) n R F)
    → Triple P (m >> n) R F
unfolding ◌>>◌ ◌>>=◌
Triple->> {P = P} {F = F} {Q = Q} {R = R} {m = m} {n = n} t u = record {
  runs = λ s p. Post-then_do Q R F (λ _. n) u (m s) (t.runs s p);
}

pub Triple-done :
    {A : Type 0} {P F : Assertion} {Q : A → Assertion} (a : A)
    → ((s : Progress) → P s → Q a s)
    → Triple P (done a) Q F
unfolding done
Triple-done a h = record { runs = h }

pub Triple-fail :
    {A : Type 0} {P F : Assertion} {Q : A → Assertion} (e : InstallError)
    → ((s : Progress) → P s → F s)
    → Triple P (fail {A = A} e) Q F
unfolding fail
Triple-fail e h = record { runs = h }

pub Triple-if :
    {A : Type 0} {P F : Assertion} {Q : A → Assertion} (t : Bool) {m n : Step A}
    → (t ≡ true → Triple P m Q F)
    → (t ≡ false → Triple P n Q F)
    → Triple P (if t then m else n) Q F
Triple-if true h k = h refl
Triple-if false h k = k refl

pub Triple-check :
    {E : Type 0} {P F : Assertion} {Q : Unit → Assertion} (wrap : E → InstallError) (e : Option E)
    → (e ≡ none → (s : Progress) → P s → Q tt s)
    → ((s : Progress) → P s → F s)
    → Triple P (check wrap e) Q F
unfolding check done fail
Triple-check wrap none h k = record { runs = h refl }
Triple-check wrap (some e) h k = record { runs = k }

-- The progress after an event.
abbrev pub with_event : Event → Progress → Progress
with_event e s = record s { history = e ∷ s.history }

Post-expect :
    {A : Type 0} (Q : A → Assertion) (F : Assertion) (e : InstallError) (r : Reply A) (s : Progress)
    → ((a : A) → r ≡ replied a → Q a s)
    → (r ≡ no_reply → F s)
    → Post Q F (expect e r s)
unfolding expect done fail
Post-expect Q F e (replied a) s h k = h a refl
Post-expect Q F e no_reply s h k = k refl

pub Triple-call :
    {A : Type 0} {P F : Assertion} {Q : A → Assertion} (e : InstallError) (ask : History → Reply A)
    (event : Reply A → Event)
    → ((s : Progress) (a : A) → P s → Q a (with_event (event (replied a)) s))
    → ((s : Progress) → P s → F (with_event (event no_reply) s))
    → Triple P (call e ask event) Q F
unfolding call
Triple-call {F = F} {Q = Q} e ask event h k = record {
  runs = λ s p.
      Post-expect Q F e (ask s.history) _
        (λ a same. subst (λ r. Q a (with_event (event r) s)) (sym same) (h s a p))
        (λ same. subst (λ r. F (with_event (event r) s)) (sym same) (k s p));
}

-- After an error the cleanup runs, and keeps what is to hold then.
pub Triple-or_first :
    {A : Type 0} {P F : Assertion} {Q : A → Assertion} {cleanup : Step Unit} {m : Step A}
    → Triple F cleanup (λ _. F) F
    → Triple P m Q F
    → Triple P (or_first cleanup m) Q F
unfolding or_first
Triple-or_first {A = A} {F = F} {Q = Q} {cleanup = cleanup} {m = m} c t = record {
  runs = λ s p. kept (m s) (t.runs s p);
}
  where
    ended : (o : Outcome Unit × Progress) → Post (λ _. F) F o → F o.1
    ended (returned x, s') q = q
    ended (failed e, s') q = q

    kept : (o : Outcome A × Progress) → Post Q F o → Post Q F (failing_over cleanup o)
    kept (returned a, s') q = q
    kept (failed e, s') q = ended (cleanup s') (c.runs s' q)

-- What holds before is weakened, what holds after is too.
pub Triple-weaken :
    {A : Type 0} {P P' F F' : Assertion} {Q Q' : A → Assertion} {m : Step A}
    → ((s : Progress) → P' s → P s)
    → ((a : A) (s : Progress) → Q a s → Q' a s)
    → ((s : Progress) → F s → F' s)
    → Triple P m Q F
    → Triple P' m Q' F'
Triple-weaken {A = A} {F = F} {F' = F'} {Q = Q} {Q' = Q'} {m = m} p q f t = record {
  runs = λ s h. kept (m s) (t.runs s (p s h));
}
  where
    kept : (o : Outcome A × Progress) → Post Q F o → Post Q' F' o
    kept (returned a, s') x = q a s' x
    kept (failed e, s') x = f s' x

pub Triple-update :
    {P F : Assertion} {Q : Unit → Assertion} (f : BuildState → BuildState)
    → ((s : Progress) → P s → Q tt (record s { build = f s.build }))
    → Triple P (update f) Q F
unfolding update
Triple-update f h = record { runs = h }

-- The state is read; what follows may use that it is this state.
pub Triple-the_state :
    {A : Type 0} {P F : Assertion} {Q : A → Assertion} {f : BuildState → Step A}
    → ((b : BuildState) → Triple (λ s. P s × (s.build ≡ b)) (f b) Q F)
    → Triple P (the_state >>= f) Q F
unfolding the_state ◌>>=◌
Triple-the_state h = record { runs = λ s p. (h s.build).runs s (p, refl) }

-- What a step leaves true, with a result or an error, is kept by what follows.
pub Triple-attempt :
    {P K F : Assertion} {m : Step Unit} {next : Outcome Unit → Step Unit}
    → Triple P m (λ _. K) K
    → ((o : Outcome Unit) → Triple K (next o) (λ _. K) F)
    → Triple P (attempt m next) (λ _. K) F
Triple-attempt {K = K} {F = F} {m = m} {next = next} t u = record {
  runs = λ s p. go (m s) (t.runs s p);
}
  where
    go : (o : Outcome Unit × Progress) → Post (λ _. K) K o → Post (λ _. K) F (next o.0 o.1)
    go (returned x, s) i = (u (returned x)).runs s i
    go (failed e, s) i = (u (failed e)).runs s i

-- A call that keeps what each event keeps.
pub Triple-call_lasts :
    {A : Type 0} (K : Assertion) (e : InstallError) (ask : History → Reply A)
    (event : Reply A → Event)
    → ((e : Event) (s : Progress) → K s → K (with_event e s))
    → Triple K (call e ask event) (λ _. K) K
Triple-call_lasts K e ask event lasts =
    Triple-call e ask event (λ s a k. lasts _ s k) (λ s k. lasts _ s k)

-- What holds with a result and with an error holds.
pub Post-both : {A : Type 0} (K : Assertion) (o : Outcome A × Progress) → Post (λ _. K) K o → K o.1
Post-both K (returned a, s) k = k
Post-both K (failed e, s) k = k

pub Post-same : {A : Type 0} (K : Assertion) (o : Outcome A × Progress) → K o.1 → Post (λ _. K) K o
Post-same K (returned a, s) k = k
Post-same K (failed e, s) k = k

-- A result that is there goes into what follows.
pub Triple-return :
    {A B : Type 0} {P F : Assertion} {R : B → Assertion} {a : A} (f : A → Step B)
    → Triple P (f a) R F
    → Triple P (done a >>= f) R F
unfolding done ◌>>=◌
Triple-return f t = record { runs = t.runs }
