-- ===== src/Common/Walks.antt =====
-- Reading a list of events from left to right, where an event may be out of place.
use mathlib.Core.Path.{◌≡◌}
use mathlib.Core.Logic.{inl, inr}
use mathlib.Core.Option.{Option, none, some}
use mathlib.Core.List.{List, [], ◌∷◌, ◌++◌}
use native.Mathlib.Omega.{arith}
use lunatic92i.Common.Tests.{Option-cases}

module _ {ℓ κ} {A : Type ℓ} {S : Type κ} where
  -- The state after the events, or `none` at an event that may not stand there.
  unfoldable pub read_all : (A → S → Option S) → List A → S → Option S
  read_all read [] s = some s
  read_all read (x ∷ xs) s = elim (read x s) [ none ↦ none | some t ↦ read_all read xs t ]

  pub read_all-snoc :
      (read : A → S → Option S) (xs : List A) (x : A) (s t : S)
      → read_all read xs s ≡ some t
      → read_all read (xs ++ x ∷ []) s ≡ read x t
  unfolding read_all
  read_all-snoc read [] x s t h = ground arith
  read_all-snoc read (y ∷ xs) x s t h = elim (Option-cases (read y s)) [
    | inl e ↦ ground arith
    | inr (c, e) ↦ ground (arith, read_all-snoc read xs x c t)
  ]
