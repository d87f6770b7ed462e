-- ===== src/Playbooks/Confined.antt =====
-- What the actions of backend/app/playbooks/actions.py that are not destructive leave alone.
use lunatic92i.Common.{
  ◌≡◌, ◌⊎◌, inl, inr, refl, ◌∙◌, false, Option, none, some, List, arith, Text, Option-cases,
  true_false, some_inj,
}
use lunatic92i.Incidents.Model.{Incident, IncidentDb, IncidentNote}
use lunatic92i.Incidents.Links.{Outcome, ok, err}
use lunatic92i.Incidents.Frame.{create_incident-assets, add_note-assets}
use lunatic92i.Incidents.Run.{created_db}
use lunatic92i.Playbooks.Model.{Context, Report, Attempt, done, missing, raised, Action}
use lunatic92i.Playbooks.Targets.{
  World, Details, Services, get, with_target, target_ip, target_host, target_email, asset_by_host,
  user_by_email, invalid, matches, Lookup, Match,
}
use lunatic92i.Playbooks.Actions.{
  Effect, finished, log, enrich_ip, enrich_host, enrich_user, check_ioc, calculate_reputation,
  draft_of,
}
use lunatic92i.Playbooks.Registry.{
  opened_by, open_incident, notice, notified, notify, case_of, notify_analyst, ActionName,
  action_names, action_of, registry, of_enrich_ip, of_enrich_host, of_enrich_user, of_check_ioc,
  of_calculate_reputation, of_create_incident, of_notify_analyst, of_disable_user, of_isolate_host,
}

-- The accounts and the assets after an attempt are those before.
abbrev pub IsConfined : World → Attempt Effect → Type 0
IsConfined w (done (r, c, after)) =
    (after.users ≡ w.users) × (after.tables.assets ≡ w.tables.assets)
IsConfined w (missing m) = Unit
IsConfined w raised = Unit

with_target-IsConfined :
    (w : World) (t : Attempt Text) (f : Text → Attempt Effect)
    → ((x : Text) → IsConfined w (f x))
    → IsConfined w (with_target t f)
unfolding with_target
with_target-IsConfined w (done x) f h = h x
with_target-IsConfined w (missing m) f h = tt
with_target-IsConfined w raised f h = tt

opened_by-IsConfined :
    (context : Context Details) (w : World) (o : Option (Outcome Incident × IncidentDb))
    → (created_db w.tables o).assets ≡ w.tables.assets
    → IsConfined w (opened_by context w o)
unfolding opened_by finished created_db
opened_by-IsConfined context w none h = tt
opened_by-IsConfined context w (some (err e, after)) h = tt
opened_by-IsConfined context w (some (ok incident, after)) h = (refl, h)

notice-same :
    (context : Context Details) (body : Text) (w : World)
    → ((notice context body w).users ≡ w.users)
      × ((notice context body w).tables.assets ≡ w.tables.assets)
unfolding notice log
notice-same context body w = elim (Option-cases context.incident) [
  | inl e ↦ rw (e, notice) (refl, refl)
  | inr (incident, e) ↦ rw (e, notice) (refl, refl)
]

notified-IsConfined :
    (context : Context Details) (body : Text) (w : World) (o : Outcome IncidentNote × IncidentDb)
    → o.1.assets ≡ w.tables.assets
    → IsConfined w (notified context body w o)
unfolding notified finished
notified-IsConfined context body w (err e, after) h = tt
notified-IsConfined context body w (ok remark, after) h =
    let (users, assets) = notice-same context body (record w { tables = after }) in
    (users, assets ∙ h)

notify-IsConfined :
    (incident : Option Incident) (body : Text) (w : World) (context : Context Details)
    → IsConfined w (notify incident body w context)
unfolding notify finished
notify-IsConfined none body w context = notice-same context body w
notify-IsConfined (some incident) body w context =
    notified-IsConfined context body w _ (add_note-assets w.tables (case_of context incident) body)

Lookup-cases :
    (l : Lookup) → ((c : Text) × (l ≡ invalid c)) ⊎ ((found : List Match) × (l ≡ matches found))
Lookup-cases (invalid c) = inl (c, refl)
Lookup-cases (matches found) = inr (found, refl)

module _ (services : Services) (w : World) (context : Context Details) where
  enrich_host-IsConfined : IsConfined w (enrich_host services w context)
  unfolding enrich_host finished
  enrich_host-IsConfined = with_target-IsConfined w (target_host context) _ (λ hostname.
      elim (Option-cases (asset_by_host w context.tenant_id hostname)) [
        | inl e ↦ rw e tt
        | inr (asset, e) ↦ rw e (refl, refl)
      ])

  enrich_user-IsConfined : IsConfined w (enrich_user services w context)
  unfolding enrich_user finished
  enrich_user-IsConfined = with_target-IsConfined w (target_email context) _ (λ email.
      elim (Option-cases (user_by_email services.fold_case w context.tenant_id email)) [
        | inl e ↦ rw e tt
        | inr (user, e) ↦ rw e (refl, refl)
      ])

  check_ioc-IsConfined : IsConfined w (check_ioc services w context)
  unfolding check_ioc finished
  check_ioc-IsConfined = with_target-IsConfined w (target_ip context) _ (λ ip.
      elim (Lookup-cases (services.look_up w.tables context.tenant_id ip)) [
        | inl (complaint, e) ↦ rw e tt
        | inr (found, e) ↦ rw e (refl, refl)
      ])

  -- What a plain action comes to.
  plain-IsConfined :
      (which : ActionName)
      → (action_of services which).is_destructive ≡ false
      → IsConfined w ((action_of services which).execute w context)
  unfolding action_of enrich_ip calculate_reputation open_incident notify_analyst finished
  plain-IsConfined of_enrich_ip safe =
      with_target-IsConfined w (target_ip context) _ (λ ip. (refl, refl))
  plain-IsConfined of_enrich_host safe = enrich_host-IsConfined
  plain-IsConfined of_enrich_user safe = enrich_user-IsConfined
  plain-IsConfined of_check_ioc safe = check_ioc-IsConfined
  plain-IsConfined of_calculate_reputation safe = (refl, refl)
  plain-IsConfined of_create_incident safe = opened_by-IsConfined context w _ (
      create_incident-assets w.tables context.tenant_id (draft_of context) context.actor_id none
        context.moment)
  plain-IsConfined of_notify_analyst safe = notify-IsConfined context.incident _ w context
  plain-IsConfined of_disable_user safe = true_false refl safe
  plain-IsConfined of_isolate_host safe = true_false refl safe

-- Whatever an action of the registry that is not destructive is given, it leaves the accounts and the
-- assets as they are: an account is disabled and a host is isolated by a destructive action only.
pub registry-confined :
    (services : Services) (name : Text) (action : Action World Details) (w after : World)
    (context next : Context Details) (outcome : Report Details)
    → registry services name ≡ some action
    → action.is_destructive ≡ false
    → action.execute w context ≡ done (outcome, next, after)
    → (after.users ≡ w.users) × (after.tables.assets ≡ w.tables.assets)
unfolding registry
registry-confined services name action w after context next outcome known safe e =
    elim (Option-cases (get name action_names)) [
      | inl n ↦ absurd (ground arith)
      | inr (which, n) ↦
          let same : action_of services which ≡ action = some_inj (rw (n, registry) at known) in
          let kept : IsConfined w (action.execute w context) =
            rw⁻¹ same (plain-IsConfined services w context which (rw same safe)) in
          rw e at kept
    ]
