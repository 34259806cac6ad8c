-- ===== src/Base/Clean.antt =====
-- Actions that change nothing, and actions that change nothing when they throw.
use mathlib.Core.Path.{◌≡◌, refl, ◌∙◌, ap}
use ayad_network_manager.Base.Effects.{Result, ok, err, Action, pure, ◌>>=◌}
use ayad_network_manager.Base.Returns.{Returns}

pub record Reads {S E A : Type 0} (m : Action S E A) : Type 0 where
  pub unchanged : (s : S) → (m s).1 ≡ s

pub record ThrowsClean {S E A : Type 0} (m : Action S E A) : Type 0 where
  pub clean : (s : S) (e : E) → (m s).0 ≡ err e → (m s).1 ≡ s

module _ {S E A : Type 0} where
  pub Reads-bind :
      {B : Type 0} {m : Action S E A} {f : A → Action S E B}
      → Reads m
      → ((a : A) → Reads (f a))
      → Reads (m >>= f)
  Reads-bind {B} {m} {f} h g = record { unchanged = λ s. go s (m s) (h.unchanged s) }
    where
      go :
          (s : S) (r : Result E A × S)
          → r.1 ≡ s
          → (elim (r.0) as (λ _. Result E B × S) [ ok a ↦ f a r.1 | err e ↦ (err e, r.1) ]).1 ≡ s
      go s (ok a, t) e = (g a).unchanged t ∙ e
      go s (err x, t) e = e

  pub ThrowsClean-bind :
      {B : Type 0} {m : Action S E A} {f : A → Action S E B}
      → Reads m
      → ((a : A) → ThrowsClean (f a))
      → ThrowsClean (m >>= f)
  ThrowsClean-bind {B} {m} {f} h g = record { clean = λ s e. go s e (m s) (h.unchanged s) }
    where
      go :
          (s : S) (e : E) (r : Result E A × S)
          → r.1 ≡ s
          → (elim (r.0) as (λ _. Result E B × S) [ ok a ↦ f a r.1 | err e ↦ (err e, r.1) ]).0
            ≡ err e
          → (elim (r.0) as (λ _. Result E B × S) [ ok a ↦ f a r.1 | err e ↦ (err e, r.1) ]).1 ≡ s
      go s e (ok a, t) same thrown = (g a).clean t e thrown ∙ same
      go s e (err x, t) same thrown = same

  pub Returns-ThrowsClean : {m : Action S E A} → Returns m → ThrowsClean m
  Returns-ThrowsClean {m} ends = record {
    clean = λ s e thrown. let (a, t, is) = ends s in absurd (cc (ap (λ r. r.0) is, thrown));
  }

  pub pure-Reads : (a : A) → Reads {S = S} {E = E} (pure a)
  pure-Reads a = record { unchanged = λ s. refl }
