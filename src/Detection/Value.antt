-- ===== src/Detection/Value.antt =====
-- Normalized documents: the JSON values that rules are evaluated against. A number (Python's `int` or
-- `float`) is of a type `N` that the users of this module choose.
use lunatic92i.Common.{
  ℕ, Bool, Option, none, some, List, [], ◌∷◌, Text, text_eq, ◌==◌, if◌then◌else◌,
}

mutual
  pub data Value (N : Type 0) : Type 0 where
    null : Value N
    bool : Bool → Value N
    number : N → Value N
    str : Text → Value N
    arr : Items N → Value N
    obj : Fields N → Value N

  pub data Items (N : Type 0) : Type 0 where
    nil : Items N
    cons : Value N → Items N → Items N

  pub data Fields (N : Type 0) : Type 0 where
    end : Fields N
    field : Text → Value N → Fields N → Fields N

module _ {N : Type 0} where
  -- `d.get(key)`, with `none` for `_MISSING`.
  unfoldable pub get : Text → Fields N → Option (Value N)
  get key end = none
  get key (field k v rest) = if text_eq k key then some v else get key rest

  -- `d[key] = value`
  unfoldable pub put : Text → Value N → Fields N → Fields N
  put key value end = field key value end
  put key value (field k v rest) =
      if text_eq k key then field k value rest else field k v (put key value rest)

  unfoldable pub items : Items N → List (Value N)
  items nil = []
  items (cons v rest) = v ∷ items rest

-- `text.split(sep)` for a separator of one character: the first part and the others.
unfoldable pub split : ℕ → Text → Text × List Text
split sep [] = ([], [])
split sep (c ∷ cs) =
    let (part, parts) = split sep cs in if c == sep then ([], part ∷ parts) else (c ∷ part, parts)

unfoldable pub segments : Text → List Text
unfolding split
segments path = let (part, parts) = split b'.' path in part ∷ parts
