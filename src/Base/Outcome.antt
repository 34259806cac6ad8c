-- ===== src/Base/Outcome.antt =====
-- What an action ensures from where it starts: `Q` of its answer and state when it ends well, and `R`
-- of the state when it throws.
use mathlib.Core.List.{List, [], ◌∷◌}
use ayad_network_manager.Base.Effects.{Result, ok, err, Action, ◌>>=◌, catch, for_each}

module _ {S E A : Type 0} where
  abbrev pub Outcome : (A → S → Type 0) → (S → Type 0) → Result E A × S → Type 0
  Outcome Q R (ok a, t) = Q a t
  Outcome Q R (err e, t) = R t

  pub record Ensures (P : S → Type 0) (m : Action S E A) (Q : A → S → Type 0) (R : S → Type 0)
      : Type 0 where
    pub ensured : (s : S) → P s → Outcome Q R (m s)

  -- The state of an outcome that ensures the same of both ends.
  pub Outcome-state : (R : S → Type 0) (r : Result E A × S) → Outcome (λ a. R) R r → R r.1
  Outcome-state R (ok a, t) h = h
  Outcome-state R (err e, t) h = h

module _ {S E A B : Type 0} where
  pub Ensures-bind :
      {P R : S → Type 0} {Q : A → S → Type 0} {T : B → S → Type 0} (m : Action S E A)
      (f : A → Action S E B)
      → Ensures P m Q R
      → ((a : A) → Ensures (Q a) (f a) T R)
      → Ensures P (m >>= f) T R
  Ensures-bind {P} {R} {Q} {T} m f first rest = record {
    ensured = λ s p. go (m s) (first.ensured s p);
  }
    where
      go :
          (r : Result E A × S)
          → Outcome Q R r
          → Outcome T R
              (elim (r.0) as (λ _. Result E B × S) [ ok a ↦ f a r.1 | err e ↦ (err e, r.1) ])
      go (ok a, t) q = (rest a).ensured t q
      go (err e, t) q = q

module _ {S E A : Type 0} where
  pub Ensures-for_each :
      {R : S → Type 0} (xs : List A) (body : A → Action S E (Unit {0}))
      → ((x : A) → Ensures R (body x) (λ _. R) R)
      → Ensures R (for_each xs body) (λ _. R) R
  Ensures-for_each [] body step = record { ensured = λ s h. h }
  Ensures-for_each (x ∷ xs) body step =
      Ensures-bind (body x) (λ _. for_each xs body) (step x) (λ _. Ensures-for_each xs body step)

module _ {S E A : Type 0} where
  pub Ensures-catch :
      {P R T : S → Type 0} {Q : A → S → Type 0} (m : Action S E A) (h : E → Action S E A)
      → Ensures P m Q T
      → ((e : E) → Ensures T (h e) Q R)
      → Ensures P (catch m h) Q R
  Ensures-catch {P} {R} {T} {Q} m h first rest = record {
    ensured = λ s p. go (m s) (first.ensured s p);
  }
    where
      go :
          (r : Result E A × S)
          → Outcome Q T r
          → Outcome Q R
              (elim (r.0) as (λ _. Result E A × S) [ ok a ↦ (ok a, r.1) | err e ↦ h e r.1 ])
      go (ok a, t) q = q
      go (err e, t) q = (rest e).ensured t q
