-- ===== src/Playbooks/Targets.antt =====
-- What the actions of backend/app/playbooks/actions.py work on and report. The details of a step are one
-- constructor for each form; the lookup of indicators (`canonicalize` of backend/app/threat_intel/normalize.py
-- and `match` of backend/app/services/threat_intel.py) and the test of Python's `ipaddress` are parameters.
use lunatic92i.Common.{
  ℕ, Bool, false, ◌&&◌, Option, none, some, List, [], ◌∷◌, Text, codes, text_eq, ◌==◌,
  if◌then◌else◌, find,
}
use lunatic92i.Alerts.Model.{Alert}
use lunatic92i.Incidents.Model.{Asset, IncidentDb}
use lunatic92i.Playbooks.Model.{Context, Attempt, done, missing, raised}

-- `User` of backend/app/models/identity.py: the columns that an action reads or writes.
pub record User : Type 0 where
  pub id : ℕ
  pub tenant_id : ℕ
  pub email : Text
  pub is_active : Bool

pub record World : Type 0 where
  pub tables : IncidentDb
  pub users : List User

-- A dictionary of `match`: what an action reads of it, and the rest as it is.
pub record Match : Type 0 where
  pub classification : Text
  pub other : List (Text × Text)

pub data Details : Type 0 where
  nothing : Details
  target : Text → Bool → Details
  address : Text → Option Bool → Option (ℕ × Option Text × Text) → Details
  host : ℕ → Text → Text → Bool → Details
  account : ℕ → Text → Bool → Details
  matched : Text → List Match → Details
  reputation : ℕ → Text → Details
  opened : ℕ → Text → Details
  message : Text → Details
  acted_on : ℕ → Text → Details

-- `InvalidIndicator` with its text, or the matches.
pub data Lookup : Type 0 where
  invalid : Text → Lookup
  matches : List Match → Lookup

pub record Services : Type 0 where
  pub is_private : Text → Option Bool
  pub fold_case : Text → Text
  pub look_up : IncidentDb → ℕ → Text → Lookup

-- `dict.get`
unfoldable pub get : {A : Type 0} → Text → List (Text × A) → Option A
get key [] = none
get key ((k, v) ∷ more) = if text_eq k key then some v else get key more

-- `x or y` on texts.
unfoldable pub or_text : Option Text → Option Text → Option Text
or_text (some (c ∷ cs)) other = some (c ∷ cs)
or_text _ other = other

-- A falsy text is no target.
unfoldable pub require : Text → Option Text → Attempt Text
require complaint (some (c ∷ cs)) = done (c ∷ cs)
require complaint _ = missing complaint

unfoldable pub of_alert : (Alert → Option Text) → Context Details → Option Text
of_alert field context = elim context.alert [ none ↦ none | some alert ↦ field alert ]

-- `_target_ip`
unfoldable pub target_ip : Context Details → Attempt Text
unfolding get or_text require of_alert
target_ip context =
    require (codes "no IP address on the alert or in step params")
      (or_text (get (codes "ip") context.params) (of_alert (λ a. a.source_ip) context))

-- `_hostname`
unfoldable pub target_host : Context Details → Attempt Text
unfolding get or_text require of_alert
target_host context =
    require (codes "no hostname on the alert or in step params")
      (or_text (get (codes "hostname") context.params) (of_alert (λ a. a.affected_host) context))

-- `_email`
unfoldable pub target_email : Context Details → Attempt Text
unfolding get or_text require of_alert
target_email context =
    require (codes "no affected user on the alert or in step params")
      (or_text (get (codes "email") context.params) (of_alert (λ a. a.affected_user) context))

-- `column == text` in SQL, where a missing value equals nothing.
unfoldable pub column_eq : Option Text → Text → Bool
column_eq none t = false
column_eq (some s) t = text_eq s t

unfoldable pub asset_by_ip : World → ℕ → Text → Option Asset
unfolding find column_eq
asset_by_ip w tenant ip =
    find (λ (a : Asset). (a.tenant_id == tenant) && column_eq a.ip_address ip) w.tables.assets

unfoldable pub asset_by_host : World → ℕ → Text → Option Asset
unfolding find column_eq
asset_by_host w tenant hostname =
    find (λ (a : Asset). (a.tenant_id == tenant) && column_eq a.hostname hostname) w.tables.assets

-- Among the equal e-mail addresses of a tenant there is one; the column ignores case, and `fold` is how.
unfoldable pub user_by_email : (Text → Text) → World → ℕ → Text → Option User
unfolding find
user_by_email fold w tenant email =
    find (λ (u : User). (u.tenant_id == tenant) && text_eq (fold u.email) (fold email)) w.users

-- `f(target)`, unless there is no target.
unfoldable pub with_target : {A : Type 0} → Attempt Text → (Text → Attempt A) → Attempt A
with_target (done t) f = f t
with_target (missing m) f = missing m
with_target raised f = raised
