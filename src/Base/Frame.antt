-- ===== src/Base/Frame.antt =====
-- What an action leaves as it is, whether it ends well or throws.
use mathlib.Core.Path.{◌≡◌, refl, ◌∙◌}
use mathlib.Core.List.{List, [], ◌∷◌}
use ayad_network_manager.Base.Effects.{Result, ok, err, Action, pure, throw, ◌>>=◌, catch, for_each}

-- An action that changes nothing in a view of the state.
pub record Keeps {S E A K V : Type 0} (view : S → K → V) (m : Action S E A) : Type 0 where
  pub kept : (s : S) (k : K) → view (m s).1 k ≡ view s k

module _ {S E K V : Type 0} (view : S → K → V) where
  pub Keeps-bind :
      {A B : Type 0} {m : Action S E A} {f : A → Action S E B}
      → Keeps view m
      → ((a : A) → Keeps view (f a))
      → Keeps view (m >>= f)
  Keeps-bind {A} {B} {m} {f} h g = record { kept = λ s k. go s k (m s) (h.kept s k) }
    where
      go :
          (s : S) (k : K) (r : Result E A × S)
          → view (r.1) k ≡ view s k
          → view (elim (r.0) as (λ _. Result E B × S) [ ok a ↦ f a r.1 | err e ↦ (err e, r.1) ]).1 k
            ≡ view s k
      go s k (ok a, t) e = (g a).kept t k ∙ e
      go s k (err x, t) e = e

  pub Keeps-catch :
      {A : Type 0} {m : Action S E A} {h : E → Action S E A}
      → Keeps view m
      → ((e : E) → Keeps view (h e))
      → Keeps view (catch m h)
  Keeps-catch {A} {m} {h} km kh = record { kept = λ s k. go s k (m s) (km.kept s k) }
    where
      go :
          (s : S) (k : K) (r : Result E A × S)
          → view (r.1) k ≡ view s k
          → view (elim (r.0) as (λ _. Result E A × S) [ ok a ↦ (ok a, r.1) | err e ↦ h e r.1 ]).1 k
            ≡ view s k
      go s k (ok a, t) e = e
      go s k (err x, t) e = (kh x).kept t k ∙ e

  pub Keeps-for_each :
      {A : Type 0} (xs : List A) {body : A → Action S E (Unit {0})}
      → ((x : A) → Keeps view (body x))
      → Keeps view (for_each xs body)
  Keeps-for_each [] h = record { kept = λ s k. refl }
  Keeps-for_each (x ∷ xs) h = Keeps-bind (h x) (λ _. Keeps-for_each xs h)

  -- After a part that ended well, a part that keeps the view.
  pub bind-view :
      {A B : Type 0} (m : Action S E A) {f : A → Action S E B} {s : S} {a : A}
      → (m s).0 ≡ ok a
      → ((b : A) → Keeps view (f b))
      → (k : K) → view ((m >>= f) s).1 k ≡ view (m s).1 k
  bind-view {A} {B} m {f} {s} {a} e g k = go (m s) e
    where
      go :
          (r : Result E A × S)
          → r.0 ≡ ok a
          → view (elim (r.0) as (λ _. Result E B × S) [ ok a ↦ f a r.1 | err e ↦ (err e, r.1) ]).1 k
            ≡ view (r.1) k
      go (ok b, t) h = (g b).kept t k
      go (err x, t) h = absurd (cc)

  pub throw-Keeps : {A : Type 0} (e : E) → Keeps {S = S} {A = A} view (throw e)
  throw-Keeps e = record { kept = λ s k. refl }

  pub pure-Keeps : {A : Type 0} (a : A) → Keeps {S = S} {E = E} view (pure a)
  pure-Keeps a = record { kept = λ s k. refl }
