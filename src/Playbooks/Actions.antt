-- ===== src/Playbooks/Actions.antt =====
-- The action set: backend/app/playbooks/actions.py. `Services` is what the actions call elsewhere.
use lunatic92i.Common.{
  ℕ, ◌+◌, min, Bool, true, false, ◌||◌, Option, none, some, List, [], ◌∷◌, ◌++◌, Text, codes,
  text_eq, leb, if◌then◌else◌, any,
}
use lunatic92i.Common.Decimal.{decimal}
use lunatic92i.Audit.{AuditEvent, State, record_audit_event}
use lunatic92i.Incidents.Model.{IncidentDraft, Asset}
use lunatic92i.Playbooks.Model.{Context, Report, Attempt, done, missing, raised}
use lunatic92i.Playbooks.Targets.{
  World, Match, Details, nothing, address, host, account, matched, reputation, invalid, matches,
  Services, get, target_ip, target_host, target_email, asset_by_ip, asset_by_host, user_by_email,
  with_target,
}

-- A report and the tables, with the details under the action's name in the state.
abbrev pub Effect : Type 0
Effect = Report Details × Context Details × World

unfoldable pub report : Text → Details → Report Details
report summary details = record { summary = summary; details = details }

unfoldable pub finished : Text → Text → Details → Context Details → World → Attempt Effect
unfolding report
finished name summary details context w =
    done (report summary details, record context { state = (name, details) ∷ context.state }, w)

unfoldable pub previewed : Text → Attempt Text → Attempt (Report Details)
unfolding report
previewed summary (done t) = done (report (summary ++ t) nothing)
previewed summary (missing m) = missing m
previewed summary raised = raised

unfoldable pub log : World → AuditEvent → World
unfolding record_audit_event
log w row = record w { tables = record w.tables { audit = record_audit_event w.tables.audit row } }

unfoldable pub row_of :
    Context Details → Text → Text → Option Text → Option State → State → AuditEvent
row_of context action object_type object_id before after = record {
  tenant_id = context.tenant_id;
  actor_id = context.actor_id;
  actor_ip = none;
  action = action;
  object_type = object_type;
  object_id = object_id;
  before_state = before;
  after_state = some after;
  success = true;
}

abbrev pub asset_summary : Asset → ℕ × Option Text × Text
asset_summary asset = (asset.id, asset.hostname, asset.criticality)

abbrev pub has_class : Text → List Match → Bool
has_class c found = any (λ (m : Match). text_eq m.classification c) found

module _ (services : Services) where
  -- `EnrichIpAction`
  unfoldable pub enrich_ip : World → Context Details → Attempt Effect
  unfolding with_target target_ip asset_by_ip finished
  enrich_ip w context = with_target (target_ip context) (λ ip.
      let found : Option (ℕ × Option Text × Text) = elim (asset_by_ip w context.tenant_id ip) [
        | none ↦ none
        | some asset ↦ some (asset_summary asset)
      ] in
      finished (codes "enrich_ip") (codes "Enriched " ++ ip)
        (address ip (services.is_private ip) found) context w)

  -- `EnrichHostAction`
  unfoldable pub enrich_host : World → Context Details → Attempt Effect
  unfolding with_target target_host asset_by_host finished
  enrich_host w context = with_target (target_host context) (λ hostname.
      elim (asset_by_host w context.tenant_id hostname) [
        | none ↦ missing (codes "no asset registered with hostname " ++ hostname)
        | some asset ↦
            finished (codes "enrich_host") (codes "Enriched host " ++ hostname)
              (host asset.id hostname asset.criticality asset.is_isolated) context w
      ])

  -- `EnrichUserAction`
  unfoldable pub enrich_user : World → Context Details → Attempt Effect
  unfolding with_target target_email user_by_email finished
  enrich_user w context = with_target (target_email context) (λ email.
      elim (user_by_email services.fold_case w context.tenant_id email) [
        | none ↦ missing (codes "no user account found for " ++ email)
        | some user ↦
            finished (codes "enrich_user") (codes "Enriched account " ++ email)
              (account user.id email user.is_active) context w
      ])

  -- `CheckIocAction`
  unfoldable pub check_ioc : World → Context Details → Attempt Effect
  unfolding with_target target_ip finished any
  check_ioc w context = with_target (target_ip context) (λ ip.
      elim (services.look_up w.tables context.tenant_id ip) [
        | invalid complaint ↦ missing complaint
        | matches found ↦
            let verdict =
              if has_class (codes "malicious") found
              then codes "known-malicious"
              else codes "no match" in
            finished (codes "check_ioc") (codes "IOC check for " ++ (ip ++ (codes ": " ++ verdict)))
              (matched ip found) context w
      ])

-- `ioc_result.get("matches", [])`
unfoldable pub matches_in : Option Details → List Match
matches_in (some (matched ip found)) = found
matches_in _ = []

-- `enrich_result.get("asset", {}).get("criticality") in ("HIGH", "CRITICAL")`
unfoldable pub is_critical : Option Details → Bool
is_critical (some (address ip private (some (i, hostname, criticality)))) =
    text_eq criticality (codes "HIGH") || text_eq criticality (codes "CRITICAL")
is_critical _ = false

unfoldable pub reputation_score : List Match → Bool → ℕ
unfolding any
reputation_score found critical =
    min
      ((if has_class (codes "malicious") found
          then 70
          else if has_class (codes "suspicious") found
          then 40
          else 0)
        + (if critical then 20 else 0))
      100

unfoldable pub verdict_of : ℕ → Text
verdict_of score =
    if leb 70 score
    then codes "malicious"
    else if leb 30 score
    then codes "suspicious"
    else codes "unknown"

-- `CalculateReputationAction`
unfoldable pub calculate_reputation : World → Context Details → Attempt Effect
unfolding get matches_in is_critical reputation_score verdict_of finished
calculate_reputation w context =
    let score =
      reputation_score (matches_in (get (codes "check_ioc") context.state))
        (is_critical (get (codes "enrich_ip") context.state)) in
    let verdict = verdict_of score in
    finished (codes "calculate_reputation")
      (codes "Reputation: " ++ (verdict ++ (codes " (" ++ (decimal score ++ codes "/100)"))))
      (reputation score verdict) context w

-- `str(context.params.get("title") or default)`
unfoldable pub title_of : Context Details → Text
unfolding get
title_of context =
    let default : Text = elim context.alert [
      | none ↦ codes "Playbook-created incident"
      | some alert ↦ alert.title
    ] in
    elim (get (codes "title") context.params) [
      | none ↦ default
      | some [] ↦ default
      | some (c ∷ cs) ↦ c ∷ cs
    ]

unfoldable pub description_of : Option Details → Text
description_of (some (reputation score verdict)) =
    codes "Opened automatically by playbook step 'create_incident'. Reputation: "
    ++ (verdict ++ (codes " (" ++ (decimal score ++ codes "/100).")))
description_of _ = codes "Opened automatically by playbook step 'create_incident'."

-- `dict.get(key, default)` on the parameters.
unfoldable pub param_or : Text → Text → Context Details → Text
unfolding get
param_or key default context = elim (get key context.params) [ none ↦ default | some t ↦ t ]

unfoldable pub draft_of : Context Details → IncidentDraft
unfolding title_of description_of get param_or
draft_of context = record {
  title = title_of context;
  description = some (description_of (get (codes "calculate_reputation") context.state));
  severity = param_or (codes "severity") (codes "medium") context;
  priority = none;
  alert_ids = elim context.alert [ none ↦ [] | some alert ↦ alert.id ∷ [] ];
}
