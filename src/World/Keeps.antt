-- ===== src/World/Keeps.antt =====
-- What the loops and the passes of `fix_world` keep where their bodies keep it.
use collab_mode.Prelude.{List, [], ◌∷◌}
use collab_mode.World.Fix.{Connections, Handled, each, pass, followed_by}

-- A handler that keeps a property of the state.
abbrev pub Keeps : (Connections → Type 0) → (Connections → Handled) → Type 0
Keeps P f = (s : Connections) → P s → P (f s).1

module _ (P : Connections → Type 0) where
  each-Keeps :
      {A : Type 0} (f : A → Connections → Handled)
      → ((a : A) → Keeps P (f a))
      → (xs : List A) → Keeps P (each f xs)
  unfolding each
  each-Keeps f keep [] s ok = ok
  each-Keeps f keep (x ∷ xs) s ok = each-Keeps f keep xs (f x s).1 (keep x s ok)

  pub pass-Keeps :
      {A : Type 0} (select : Connections → List A) (f : A → Connections → Handled)
      → ((a : A) → Keeps P (f a))
      → Keeps P (pass select f)
  unfolding pass
  pass-Keeps select f keep s ok = each-Keeps f keep (select s) s ok

  pub followed_by-Keeps :
      (f g : Connections → Handled) → Keeps P f → Keeps P g → Keeps P (followed_by f g)
  unfolding followed_by
  followed_by-Keeps f g keep keep' s ok = keep' (f s).1 (keep s ok)
