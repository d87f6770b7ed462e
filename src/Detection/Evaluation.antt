-- ===== src/Detection/Evaluation.antt =====
-- What evaluation means: backend/app/detection/conditions.py, `evaluate_condition` and
-- `evaluate_node`.
use lunatic92i.Common.{
  ◌≡◌, ◌⊎◌, ◌↔◌, refl, inl, inr, Bool, true, false, Option, none, some, List, [], ◌∷◌, arith, Text,
  true_false, keep, Memᴰ, subst, Option-cases,
}
use lunatic92i.Detection.Value.{Value}
use lunatic92i.Detection.Schema
use lunatic92i.Detection.Schema.{ConditionNode, NodeList, OneNode, Nodes, Condition, exactly_one}
use lunatic92i.Detection.Operators.{Runtime, negate, any_or_raise, equal}
use lunatic92i.Detection.Conditions.{
  evaluate_condition, evaluate_node, evaluate_all, evaluate_any, is_present,
}
use lunatic92i.Detection.Paths.{resolve_path}

-- Every group of the tree sets exactly one branch, and no list is empty.
unfoldable mutual
  pub IsWellFormed : {N : Type 0} → ConditionNode N → Type 0
  IsWellFormed (Schema.condition c) = Unit
  IsWellFormed (Schema.group a b c) =
      (exactly_one a b c ≡ true) × IsWellFormedList a × IsWellFormedList b × IsWellFormedOne c

  pub IsWellFormedList : {N : Type 0} → NodeList N → Type 0
  IsWellFormedList Schema.no_list = Unit
  IsWellFormedList (Schema.nodes xs) = IsWellFormedAll xs

  pub IsWellFormedOne : {N : Type 0} → OneNode N → Type 0
  IsWellFormedOne Schema.no_node = Unit
  IsWellFormedOne (Schema.node x) = IsWellFormed x

  pub IsWellFormedAll : {N : Type 0} → Nodes N → Type 0
  IsWellFormedAll Schema.nil = Unit
  IsWellFormedAll (Schema.cons x xs) = IsWellFormed x × IsWellFormedAll xs

module _ {N : Type 0} (rt : Runtime N) where
  -- The meaning of a tree: conjunction, disjunction and negation of its conditions.
  unfoldable mutual
    pub Holds : ConditionNode N → Value N → Type 0
    Holds (Schema.condition c) d = evaluate_condition rt c d ≡ some true
    Holds (Schema.group (Schema.nodes xs) b c) d = HoldsAll xs d
    Holds (Schema.group Schema.no_list (Schema.nodes xs) c) d = HoldsAny xs d
    Holds (Schema.group Schema.no_list Schema.no_list (Schema.node x)) d = ¬ (Holds x d)
    Holds (Schema.group Schema.no_list Schema.no_list Schema.no_node) d = ⊥

    pub HoldsAll : Nodes N → Value N → Type 0
    HoldsAll Schema.nil d = Unit
    HoldsAll (Schema.cons x xs) d = Holds x d × HoldsAll xs d

    pub HoldsAny : Nodes N → Value N → Type 0
    HoldsAny Schema.nil d = ⊥
    HoldsAny (Schema.cons x xs) d = Holds x d ⊎ HoldsAny xs d

  -- Some condition of the tree raises on the document.
  unfoldable mutual
    pub Raises : ConditionNode N → Value N → Type 0
    Raises (Schema.condition c) d = evaluate_condition rt c d ≡ none
    Raises (Schema.group (Schema.nodes xs) b c) d = RaisesAny xs d
    Raises (Schema.group Schema.no_list (Schema.nodes xs) c) d = RaisesAny xs d
    Raises (Schema.group Schema.no_list Schema.no_list (Schema.node x)) d = Raises x d
    Raises (Schema.group Schema.no_list Schema.no_list Schema.no_node) d = ⊥

    pub RaisesAny : Nodes N → Value N → Type 0
    RaisesAny Schema.nil d = ⊥
    RaisesAny (Schema.cons x xs) d = Raises x d ⊎ RaisesAny xs d

  -- A result that says whether `P`, unless it is an exception, which there is only if `R`.
  abbrev pub Decides : Type 0 → Type 0 → Option Bool → Type 0
  Decides P R out = ((b : Bool) × (out ≡ some b) × ((b ≡ true) ↔ P)) ⊎ ((out ≡ none) × R)

  decide_and :
      {P Q R S : Type 0} (out rest : Option Bool)
      → Decides P R out
      → Decides Q S rest
      → Decides
          (P × Q)
          (R ⊎ S)
          (elim out [ none ↦ none | some true ↦ rest | some false ↦ some false ])
  decide_and out rest (inr (e, raises)) h = inr (rw e refl, inl raises)
  decide_and out rest (inl (false, e, p)) h =
      inl (false, rw e refl, (λ t. absurd (cc), λ k. p.1 k.0))
  decide_and out rest (inl (true, e, p)) (inl (c, r, q)) =
      inl (c, rw e r, (λ t. (p.0 refl, q.0 t), λ h. q.1 h.1))
  decide_and out rest (inl (true, e, p)) (inr (r, raises)) = inr (rw e r, inr raises)

  decide_or :
      {P Q R S : Type 0} (out rest : Option Bool)
      → Decides P R out
      → Decides Q S rest
      → Decides
          (P ⊎ Q)
          (R ⊎ S)
          (elim out [ none ↦ none | some true ↦ some true | some false ↦ rest ])
  decide_or out rest (inr (e, raises)) h = inr (rw e refl, inl raises)
  decide_or out rest (inl (true, e, p)) h = inl (true, rw e refl, (λ _. inl (p.0 refl), λ _. refl))
  decide_or out rest (inl (false, e, p)) (inl (c, r, q)) = inl (
    c,
    rw e r,
    (λ t. inr (q.0 t), λ h. elim h [ inl x ↦ true_false (p.1 x) refl | inr y ↦ q.1 y ]),
  )
  decide_or out rest (inl (false, e, p)) (inr (r, raises)) = inr (rw e r, inr raises)

  decide_not : {P R : Type 0} (out : Option Bool) → Decides P R out → Decides (¬ P) R (negate out)
  unfolding negate
  decide_not out (inr (e, raises)) = inr (rw e refl, raises)
  decide_not out (inl (true, e, p)) =
      inl (false, rw e refl, (λ t. absurd (cc), λ n. absurd (n (p.0 refl))))
  decide_not out (inl (false, e, p)) =
      inl (true, rw e refl, (λ _ h. true_false (p.1 h) refl, λ _. refl))

  -- A condition holds if it evaluates to true.
  Decides-condition : (out : Option Bool) → Decides (out ≡ some true) (out ≡ none) out
  Decides-condition none = inr (refl, refl)
  Decides-condition (some true) = inl (true, refl, (λ _. refl, λ _. refl))
  Decides-condition (some false) = inl (false, refl, (λ t. absurd (cc), λ t. absurd (cc)))

  mutual
    unfolding evaluate_node Holds Raises IsWellFormed exactly_one

    Decides-node :
        (x : ConditionNode N) (d : Value N)
        → IsWellFormed x
        → Decides (Holds x d) (Raises x d) (evaluate_node rt x d)
    Decides-node (Schema.condition c) d w = Decides-condition (evaluate_condition rt c d)
    Decides-node (Schema.group (Schema.nodes xs) b c) d w = Decides-all xs d w.1
    Decides-node (Schema.group Schema.no_list (Schema.nodes xs) c) d w = Decides-any xs d w.2
    Decides-node (Schema.group Schema.no_list Schema.no_list (Schema.node x)) d w =
        decide_not (evaluate_node rt x d) (Decides-node x d w.3)
    Decides-node (Schema.group Schema.no_list Schema.no_list Schema.no_node) d w =
        true_false w.0 refl

    Decides-all :
        (xs : Nodes N) (d : Value N)
        → IsWellFormedAll xs
        → Decides (HoldsAll xs d) (RaisesAny xs d) (evaluate_all rt xs d)
    Decides-all Schema.nil d w = inl (true, refl, (λ _. tt, λ _. refl))
    Decides-all (Schema.cons x xs) d w =
        decide_and (evaluate_node rt x d) (evaluate_all rt xs d) (Decides-node x d w.0)
          (Decides-all xs d w.1)

    Decides-any :
        (xs : Nodes N) (d : Value N)
        → IsWellFormedAll xs
        → Decides (HoldsAny xs d) (RaisesAny xs d) (evaluate_any rt xs d)
    Decides-any Schema.nil d w = inl (false, refl, (λ t. absurd (cc), λ h. absurd h))
    Decides-any (Schema.cons x xs) d w =
        decide_or (evaluate_node rt x d) (evaluate_any rt xs d) (Decides-node x d w.0)
          (Decides-any xs d w.1)

  -- A tree that the schema accepts evaluates to a Boolean that is true exactly if the tree holds, with
  -- `all`, `any` and `not` as conjunction, disjunction and negation, or it raises, and then one of its
  -- conditions does.
  pub evaluate_node-Holds :
      (x : ConditionNode N) (d : Value N)
      → IsWellFormed x
      → ((b : Bool) × (evaluate_node rt x d ≡ some b) × ((b ≡ true) ↔ Holds x d))
        ⊎ ((evaluate_node rt x d ≡ none) × Raises x d)
  evaluate_node-Holds x d w = Decides-node x d w

  any_or_raise-Mem :
      (test : Value N → Option Bool) (vs : List (Value N)) (v : Value N)
      → ((w : Value N) → Memᴰ w vs → ¬ (test w ≡ none))
      → Memᴰ v vs
      → test v ≡ some true
      → any_or_raise test vs ≡ some true
  unfolding any_or_raise
  any_or_raise-Mem test [] v calm m h = elim m [ ]
  any_or_raise-Mem test (x ∷ vs) v calm (Memᴰ.head e) h =
      rw (subst (λ y. test y ≡ some true) e h, any_or_raise) refl
  any_or_raise-Mem test (x ∷ vs) v calm (Memᴰ.tail m) h =
      let rest = any_or_raise-Mem test vs v (λ w mw. calm w (Memᴰ.tail mw)) m h in
      elim (Option-cases (test x)) [
        | inl e ↦ absurd (calm x (Memᴰ.head refl) e)
        | inr (true, e) ↦ rw (e, any_or_raise) refl
        | inr (false, e) ↦ rw (e, any_or_raise) rest
      ]

  negate-some : (out : Option Bool) → ¬ (out ≡ none) → ¬ (negate out ≡ none)
  unfolding negate
  negate-some none h e = h refl
  negate-some (some b) h e = absurd (ground arith)

  -- A field that fans out to two values, one that equals the expected value and one that does not,
  -- satisfies the `equals` condition and the `not_equals` condition with the same value, if no
  -- comparison of a value of the field raises: the negative operator asks for some value that differs,
  -- not for no value that matches.
  pub equals_and_not_equals :
      (path : Text) (expected : Value N) (c : Bool) (d u v : Value N)
      → ((w : Value N)
          → Memᴰ w (keep (is_present rt) (resolve_path d path))
          → ¬ (equal rt w expected c ≡ none))
      → Memᴰ u (keep (is_present rt) (resolve_path d path))
      → Memᴰ v (keep (is_present rt) (resolve_path d path))
      → equal rt u expected c ≡ some true
      → equal rt v expected c ≡ some false
      → let positive : Condition N = record {
        field_path = path;
        operator = Schema.equals;
        value = expected;
        case_sensitive = c;
      } in
        let negative : Condition N = record {
          field_path = path;
          operator = Schema.not_equals;
          value = expected;
          case_sensitive = c;
        } in
        (evaluate_condition rt positive d ≡ some true)
        × (evaluate_condition rt negative d ≡ some true)
  unfolding evaluate_condition negate
  equals_and_not_equals path expected c d u v calm mu mv eu ev = (
    any_or_raise-Mem _ (keep (is_present rt) (resolve_path d path)) u calm mu eu,
    any_or_raise-Mem _ (keep (is_present rt) (resolve_path d path)) v
        (λ w mw. negate-some (equal rt w expected c) (calm w mw)) mv (rw ev refl),
  )
