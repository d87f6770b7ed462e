-- ===== src/Detection/Examples.antt =====
-- Runs of backend/app/detection at concrete inputs. Numbers are natural, and the runtime that stands for
-- Python's and the libraries' functions compares them, has floats up to a million, and knows no address
-- and no pattern.
use lunatic92i.Common.{
  ℕ, ◌≡◌, ◌⊎◌, ◌↔◌, refl, Bool, true, false, Option, none, some, [], ◌∷◌, Text, codes, arith, ◌==◌,
  ltb, leb, text_eq, ◌&&◌, ◌-◌, if◌then◌else◌, inl, inr, subst, All, Memᴰ, keep,
}
use lunatic92i.Common.Int.{ℤ, pos}
use lunatic92i.Common.Decimal.{decimal}
use lunatic92i.Detection.Value.{Value, Fields, Items, segments, split, get, items}
use lunatic92i.Detection.Value
use lunatic92i.Detection.Schema.{
  Condition, ConditionNode, DetectionRule, RuleException, suppression_seconds, duration_seconds,
  low, enabled,
}
use lunatic92i.Detection.Schema
use lunatic92i.Detection.Operators.{Runtime, not_found, equal}
use lunatic92i.Detection.Conditions.{evaluate_node, evaluate_condition, is_present}
use lunatic92i.Detection.Paths.{
  resolve_path, walk, step_all, one_step, step_items, step_node, flatten_lists,
}
use lunatic92i.Detection.Evaluation.{
  IsWellFormed, Holds, Raises, evaluate_node-Holds, equals_and_not_equals,
}
use lunatic92i.Detection.Suppression.{Claim, claim, claim_all, claim_spaced, is_held, expiry_of}
use lunatic92i.Detection.Raising.{IsCause, evaluate_condition-raises}
use lunatic92i.Detection.Engine.{RuleMatch, Instant, fired, broken, evaluate_one, evaluate_rules}
use lunatic92i.Detection.Firing.{Covers, claim_of, evaluate_one_iff, evaluate_rules-broken}

abbrev pub runtime : Runtime ℕ
runtime = record {
  Float = ℕ;
  to_float = λ n. if ltb n 1_000_000 then some n else none;
  parse_float = λ s. none;
  number_text = λ n. decimal n;
  number_true = λ n. ltb 0 n;
  float_eq = λ a b. a == b;
  float_lt = λ a b. ltb a b;
  float_le = λ a b. leb a b;
  strip = λ s. s;
  casefold = λ s. s;
  value_eq = λ a b. false;
  value_text = λ v. codes "v";
  digit_of = λ c. if leb b'0' c && leb c b'9' then some (c - b'0') else none;
  Address = Unit;
  Network = Unit;
  parse_address = λ s. none;
  parse_network = λ s. none;
  address_version = λ a. 4;
  network_version = λ n. 4;
  contains_address = λ n a. false;
  search = λ pattern fold s. not_found;
}

abbrev pub show : Value ℕ → Text
show v = codes "v"

abbrev read_time : Text → Option ℤ
read_time t = none

-- {"user": [{"name": "root"}, {"name": "bob"}]}
abbrev document : Value ℕ
document = Value.obj (
    Value.field (codes "user")
      (Value.arr (
        Value.cons (Value.obj (Value.field (codes "name") (Value.str (codes "root")) Value.end)) (
          Value.cons (Value.obj (Value.field (codes "name") (Value.str (codes "bob")) Value.end))
            Value.nil)))
      Value.end)

abbrev is_root : Condition ℕ
is_root = record {
  field_path = codes "user.name";
  operator = Schema.equals;
  value = Value.str (codes "root");
  case_sensitive = true;
}

-- {"all": [is_root], and nothing else}
abbrev tree : ConditionNode ℕ
tree =
    Schema.group (Schema.nodes (Schema.cons (Schema.condition is_root) Schema.nil)) Schema.no_list
      Schema.no_node

tree-IsWellFormed : IsWellFormed tree
unfolding IsWellFormed Schema.exactly_one
tree-IsWellFormed = (refl, (tt, tt), tt, tt)

evaluate_node-Holds_example :
    ((b : Bool) × (evaluate_node runtime tree document ≡ some b)
      × ((b ≡ true) ↔ Holds runtime tree document))
    ⊎ ((evaluate_node runtime tree document ≡ none) × Raises runtime tree document)
evaluate_node-Holds_example = evaluate_node-Holds runtime tree document tree-IsWellFormed

abbrev root : Value ℕ
root = Value.str (codes "root")

abbrev bob : Value ℕ
bob = Value.str (codes "bob")

names_are_calm : (w : Value ℕ) → Memᴰ w (root ∷ bob ∷ []) → ¬ (equal runtime w root true ≡ none)
unfolding equal text_eq
names_are_calm w (Memᴰ.head e) h =
    absurd (ground (arith, subst (λ v. equal runtime v root true ≡ none) e h))
names_are_calm w (Memᴰ.tail (Memᴰ.head e)) h =
    absurd (ground (arith, subst (λ v. equal runtime v root true ≡ none) e h))
names_are_calm w (Memᴰ.tail (Memᴰ.tail m)) h = elim m [ ]

equals_and_not_equals_example :
    (evaluate_condition runtime is_root document ≡ some true)
    × (evaluate_condition runtime (record is_root { operator = Schema.not_equals }) document
        ≡ some true)
unfolding resolve_path walk step_all one_step step_items step_node flatten_lists segments split get
    items is_present keep equal text_eq
equals_and_not_equals_example =
    equals_and_not_equals runtime (codes "user.name") root true document root bob names_are_calm
      (Memᴰ.head refl) (Memᴰ.tail (Memᴰ.head refl)) refl refl

-- {"port": 10000000}, and port = 22
abbrev huge_port : Value ℕ
huge_port = Value.obj (Value.field (codes "port") (Value.number 10_000_000) Value.end)

abbrev is_ssh : Condition ℕ
is_ssh = record {
  field_path = codes "port";
  operator = Schema.equals;
  value = Value.number 22;
  case_sensitive = true;
}

is_ssh_raises : evaluate_condition runtime is_ssh huge_port ≡ none
unfolding evaluate_condition resolve_path walk step_all one_step step_items step_node flatten_lists
    segments split get items is_present keep equal text_eq
is_ssh_raises = refl

evaluate_condition-raises_example :
    (v : Value ℕ) × Memᴰ v (resolve_path huge_port (codes "port")) × IsCause runtime is_ssh v
evaluate_condition-raises_example = evaluate_condition-raises runtime is_ssh huge_port is_ssh_raises

abbrev first_claim : Claim
first_claim = record { key = codes "k"; ttl = 60; now = 100_000_000_000 }

abbrev other_claim : Claim
other_claim = record { key = codes "j"; ttl = 5; now = 120_000_000_000 }

abbrev second_claim : Claim
second_claim = record { key = codes "k"; ttl = 60; now = 150_000_000_000 }

first_granted : (claim first_claim []).1 ≡ true
unfolding claim is_held expiry_of
first_granted = refl

claim_spaced_example :
    (claim second_claim (claim_all (other_claim ∷ []) (claim first_claim []).0)).1 ≡ false
claim_spaced_example =
    claim_spaced [] first_claim second_claim (other_claim ∷ []) first_granted refl (omega arith)
      (omega arith) (omega arith, tt)

abbrev exception : RuleException ℕ
exception = record { reason = codes "known"; conditions = tree; expires_at = some (codes "never") }

abbrev rule : DetectionRule ℕ
rule = record {
  rule_id = codes "R-1";
  name = codes "root";
  severity = low;
  confidence = 50;
  risk_score = 10;
  status = enabled;
  version = 1;
  conditions = tree;
  window = none;
  exceptions = exception ∷ [];
  suppression = none;
  suppress_by = codes "user.name" ∷ [];
  mitre_attack = [];
}

abbrev instant : Instant
instant = record { wall = pos 100; monotonic = 5 }

no_suppression : suppression_seconds runtime.digit_of rule ≡ some 0
unfolding suppression_seconds
no_suppression = refl

tree_is_calm : ¬ (Raises runtime tree document)
unfolding Raises evaluate_condition resolve_path walk step_all one_step step_items step_node
    flatten_lists segments split get items is_present keep equal text_eq
tree_is_calm (inl e) = absurd (ground arith)
tree_is_calm (inr none_left) = elim none_left [ ]

evaluate_one_iff_example :
    ((found : RuleMatch ℕ) × ((evaluate_one runtime show read_time rule document
          (codes "t")
          (codes "e")
          instant
          []).1
        ≡ fired found))
    ↔ (Holds runtime tree document
        × All (λ ex. ¬ (Covers runtime show read_time document (pos 100) ex)) (exception ∷ [])
        × ((◌≡◌ {A = ℕ} 0 0)
            ⊎ (is_held (claim_of runtime show read_time rule document (codes "t") instant 0) []
                ≡ false)))
evaluate_one_iff_example =
    evaluate_one_iff runtime show read_time rule document (codes "t") (codes "e") instant [] 0
      tree-IsWellFormed (tree-IsWellFormed, tt) no_suppression tree_is_calm
      ((λ on. tree_is_calm), tt)

-- A rule whose condition raises on the document.
abbrev ssh_rule : DetectionRule ℕ
ssh_rule = record rule { conditions = Schema.condition is_ssh; exceptions = [] }

breaks :
    (evaluate_one runtime show read_time ssh_rule huge_port (codes "t") (codes "e") instant []).1
    ≡ broken
unfolding evaluate_one evaluate_node evaluate_condition resolve_path walk step_all one_step
    step_items step_node flatten_lists segments split get items is_present keep equal text_eq
breaks = refl

evaluate_rules-broken_example :
    evaluate_rules runtime show read_time
      (rule ∷ ssh_rule ∷ rule ∷ [])
      huge_port
      (codes "t")
      (codes "e")
      (λ r. instant)
      []
    ≡ evaluate_rules runtime show read_time
        (rule ∷ rule ∷ [])
        huge_port
        (codes "t")
        (codes "e")
        (λ r. instant)
        []
evaluate_rules-broken_example =
    evaluate_rules-broken runtime show read_time (rule ∷ []) (rule ∷ []) ssh_rule huge_port
      (codes "t") (codes "e") (λ r. instant) [] [] breaks
