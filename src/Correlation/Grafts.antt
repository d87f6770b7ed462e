-- ===== src/Correlation/Grafts.antt =====
-- What is grafted into a document can be reached: backend/app/correlation/engine.py, `_graft_entity`,
-- with `resolve_path` of backend/app/detection/conditions.py.
use lunatic92i.Common.{
  ◌≡◌, refl, sym, ◌∙◌, ap, true, Option, none, some, List, [], ◌∷◌, Text, text_eq, text_eq_refl,
  Bool-cases, Option-cases, ◌⊎◌, arith, inl, inr,
}
use lunatic92i.Detection.Value.{Value, Fields, get, put, split, segments}
use lunatic92i.Detection.Value
use lunatic92i.Detection.Paths.{resolve_path, walk, step_all, step_node, one_step, flatten_lists}
use lunatic92i.Correlation.Inputs.{child_of, graft_path, graft}
use lunatic92i.Correlation.Process.{is_given}

module _ {N : Type 0} where
  -- The value under a path of dictionaries, if there is one.
  unfoldable pub under : Text → List Text → Fields N → Option (Value N)
  under leaf [] target = get leaf target
  under part (next ∷ more) target = under next more (child_of (get part target))

  get-put : (key : Text) (v : Value N) (fields : Fields N) → get key (put key v fields) ≡ some v
  unfolding get put
  get-put key v Value.end = rw (text_eq_refl key) refl
  get-put key v (Value.field k u rest) = elim (Bool-cases (text_eq k key)) [
    | inl b ↦ rw (b, get) (rw b refl)
    | inr b ↦ rw (b, get) (rw b (get-put key v rest))
  ]

  -- A graft keeps what was there, and puts the value there otherwise.
  under-graft_path :
      (part : Text) (more : List Text) (value : Value N) (target : Fields N)
      → under part more (graft_path part more value target)
        ≡ some (elim (under part more target) [ none ↦ value | some v ↦ v ])
  unfolding under graft_path child_of
  under-graft_path leaf [] value target = elim (Option-cases (get leaf target)) [
    | inl e ↦ rw (e, graft_path) (get-put leaf value target)
    | inr (v, e) ↦ rw (e, graft_path) e
  ]
  under-graft_path part (next ∷ more) value target =
      ap (λ o. under next more (child_of o))
        (get-put part (Value.obj (graft_path next more value (child_of (get part target)))) target)
      ∙ under-graft_path next more value (child_of (get part target))

  under-end :
      (part : Text) (more : List Text) (v : Value N) → under part more Value.end ≡ some v → ⊥
  unfolding under get child_of
  under-end part [] v e = absurd (ground arith)
  under-end part (next ∷ more) v e = under-end next more v e

  child-cases :
      (o : Option (Value N))
      → (child_of o ≡ Value.end) ⊎ ((fields : Fields N) × (o ≡ some (Value.obj fields)))
  unfolding child_of
  child-cases none = inl refl
  child-cases (some (Value.obj fields)) = inr (fields, refl)
  child-cases (some Value.null) = inl refl
  child-cases (some (Value.bool b)) = inl refl
  child-cases (some (Value.number n)) = inl refl
  child-cases (some (Value.str s)) = inl refl
  child-cases (some (Value.arr xs)) = inl refl

  walk-under :
      (part : Text) (more : List Text) (target : Fields N) (v : Value N)
      → under part more target ≡ some v
      → walk (part ∷ more) (Value.obj target ∷ []) ≡ v ∷ []
  unfolding under walk step_all step_node one_step child_of
  walk-under part [] target v e = rw (e, walk) refl
  walk-under part (next ∷ more) target v e = elim (child-cases (get part target)) [
    | inl missing ↦ absurd (under-end next more v (sym (ap (λ f. under next more f) missing) ∙ e))
    | inr (fields, there) ↦
        rw (there, walk)
          (walk-under next more fields v (sym (ap (λ o. under next more (child_of o)) there) ∙ e))
  ]

  -- A value, neither null nor an empty text, that is grafted under a dotted path is what the path
  -- resolves to, as one value or as the elements of an array, unless the document already had a value at
  -- the end of the path through dictionaries alone: then that value is. A parent on the path that is no
  -- dictionary, a list included, counts as having no value below it, and what was there is lost.
  pub resolve_path-graft :
      (path : Text) (value : Value N) (document : Fields N)
      → is_given value ≡ true
      → let (first, more) = split b'.' path in
        resolve_path (Value.obj (graft path value document)) path
        ≡ flatten_lists (elim (under first more document) [ none ↦ value | some v ↦ v ] ∷ [])
  unfolding resolve_path segments graft
  resolve_path-graft path value document given =
      let (first, more) = split b'.' path in
      rw given (
        ap flatten_lists (
          walk-under first more (graft_path first more value document) _
            (under-graft_path first more value document)))
