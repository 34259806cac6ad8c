-- ===== src/Base/Returns.antt =====
-- Actions that end well in every state.
use ayad_network_manager.Base.Lists.{All}
use mathlib.Core.Path.{◌≡◌, refl, ◌∙◌}
use mathlib.Core.List.{List, [], ◌∷◌}
use ayad_network_manager.Base.Effects.{ok, Action, ◌>>=◌, for_each, bind_step}

abbrev pub Returns : {S E A : Type 0} → Action S E A → Type 0
Returns {S} {E} {A} m = (s : S) → (a : A) × (t : S) × (m s ≡ (ok a, t))

module _ {S E : Type 0} where
  pub Returns-bind :
      {A B : Type 0} (m : Action S E A) (f : A → Action S E B)
      → Returns m
      → ((a : A) → Returns (f a))
      → Returns (m >>= f)
  Returns-bind m f first rest s =
      let (a, t, e) = first s in let (b, u, e') = rest a t in (b, u, bind_step m f e ∙ e')

  pub Returns-for_each :
      {A : Type 0} (xs : List A) (body : A → Action S E (Unit {0}))
      → All (λ x. Returns (body x)) xs
      → Returns (for_each xs body)
  Returns-for_each [] body every = λ s. (tt, s, refl)
  Returns-for_each (x ∷ xs) body (one, every) =
      Returns-bind (body x) (λ _. for_each xs body) one (λ _. Returns-for_each xs body every)
