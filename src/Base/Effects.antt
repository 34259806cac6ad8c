-- ===== src/Base/Effects.antt =====
-- Calls that may throw: results, and actions on a state that comes back after a throw too.
use mathlib.Core.Path.{◌≡◌, refl, sym, ap, ◌∙◌}
use ayad_network_manager.Base.Lists.{All}
use mathlib.Core.Logic.{◌⊎◌, inl, inr}
use mathlib.Core.List.{List, [], ◌∷◌}

pub data Result (E A : Type 0) : Type 0 where
  ok : A → Result E A
  err : E → Result E A

-- An `async` method of an object whose state, with everything it reaches, is an `S`.
abbrev pub Action : Type 0 → Type 0 → Type 0 → Type 0
Action S E A = S → Result E A × S

module _ {E A : Type 0} where
  pub Result-cases : (r : Result E A) → ((a : A) × (r ≡ ok a)) ⊎ ((e : E) × (r ≡ err e))
  Result-cases (ok a) = inl (a, refl)
  Result-cases (err e) = inr (e, refl)

module _ {S E A : Type 0} where
  abbrev pub pure : A → Action S E A
  pure a s = (ok a, s)

  abbrev pub throw : E → Action S E A
  throw e s = (err e, s)

  -- `try { m } catch (error) { h(error) }`
  abbrev pub catch : Action S E A → (E → Action S E A) → Action S E A
  catch m h s = let (r, t) = m s in elim r [ ok a ↦ (ok a, t) | err e ↦ h e t ]

infixl 5 ◌>>=◌ ◌>>◌
abbrev pub ◌>>=◌ : {S E A B : Type 0} → Action S E A → (A → Action S E B) → Action S E B
◌>>=◌ m f s = let (r, t) = m s in elim r [ ok a ↦ f a t | err e ↦ (err e, t) ]

abbrev pub ◌>>◌ : {S E A B : Type 0} → Action S E A → Action S E B → Action S E B
m >> k = m >>= λ _. k

-- `for (const x of xs) await body(x);`
abbrev pub for_each :
    {S E A : Type 0} → List A → (A → Action S E (Unit {0})) → Action S E (Unit {0})
for_each [] body = pure tt
for_each (x ∷ xs) body = body x >> for_each xs body

-- A sequence whose first part is known.
pub bind_step :
    {S E A B : Type 0} (m : Action S E A) (f : A → Action S E B) {s t : S} {a : A}
    → m s ≡ (ok a, t)
    → (m >>= f) s ≡ f a t
bind_step {S} {E} {A} {B} m f e =
    ap (λ p. elim (p.0) as (λ _. Result E B × S) [ ok a ↦ f a p.1 | err x ↦ (err x, p.1) ]) e

pub bind_err :
    {S E A B : Type 0} (m : Action S E A) (f : A → Action S E B) {s t : S} {x : E}
    → m s ≡ (err x, t)
    → (m >>= f) s ≡ (err x, t)
bind_err {S} {E} {A} {B} m f e =
    ap (λ p. elim (p.0) as (λ _. Result E B × S) [ ok a ↦ f a p.1 | err x ↦ (err x, p.1) ]) e

-- Inversion of a sequence that ended well.
pub bind_ok :
    {S E A B : Type 0} (m : Action S E A) (f : A → Action S E B) {s t : S} {b : B}
    → (m >>= f) s ≡ (ok b, t)
    → (a : A) × (u : S) × (m s ≡ (ok a, u)) × (f a u ≡ (ok b, t))
bind_ok {S} {E} {A} {B} m f {s} {t} {b} h = go (m s) refl h
  where
    go :
        (r : Result E A × S)
        → m s ≡ r
        → elim (r.0) [ ok a ↦ f a r.1 | err e ↦ (err e, r.1) ] ≡ (ok b, t)
        → (a : A) × (u : S) × (m s ≡ (ok a, u)) × (f a u ≡ (ok b, t))
    go (ok a, u) e k = (a, u, e, k)
    go (err x, u) e k = absurd (cc)

-- The effect of a loop on one entry of a view, from the effect `change` of a round.
abbrev pub changes : {A K V : Type 0} → (A → K → V → V) → List A → K → V → V
changes change [] k v = v
changes change (x ∷ xs) k v = changes change xs k (change x k v)

-- How a loop changes one view of the state, when each round changes it by `change` at its element.
module _ {S E A K V : Type 0} (view : S → K → V) (body : A → Action S E (Unit {0}))
    (change : A → K → V → V) where
  -- What a round that ends well does.
  abbrev pub Changes : A → Type 0
  Changes x = (s : S) → (body x s).0 ≡ ok tt → (k : K) → view (body x s).1 k ≡ change x k (view s k)

  pub for_each-changes :
      (xs : List A) (s t : S)
      → All Changes xs
      → for_each xs body s ≡ (ok tt, t)
      → (k : K) → view t k ≡ changes change xs k (view s k)
  for_each-changes [] s t steps h k = ap (λ p. view (p.1) k) (sym h)
  for_each-changes (x ∷ xs) s t (step, steps) h k =
      let (_, u, first, rest) = bind_ok (body x) (λ _. for_each xs body) h in
      for_each-changes xs u t steps rest k
      ∙ ap (changes change xs k)
          (ap (λ p. view (p.1) k) (sym first) ∙ step s (ap (λ p. p.0) first) k)
