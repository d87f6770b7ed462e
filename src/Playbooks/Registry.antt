-- ===== src/Playbooks/Registry.antt =====
-- The actions that write, and the registry: backend/app/playbooks/actions.py, `CreateIncidentAction` to
-- `ACTION_REGISTRY`.
use lunatic92i.Common.{
  true, false, Option, none, some, List, [], ◌∷◌, ◌++◌, Text, codes, ◌==◌, update, find,
}
use lunatic92i.Common.Decimal.{decimal}
use lunatic92i.Audit.{text, flag}
use lunatic92i.Alerts.Model.{Alert}
use lunatic92i.Incidents.Model.{Incident, IncidentDb, IncidentNote, Asset}
use lunatic92i.Incidents.Links.{Case, Outcome, ok, err, find_alert}
use lunatic92i.Incidents.Opening.{create_incident}
use lunatic92i.Incidents.Work.{add_note}
use lunatic92i.Playbooks.Model.{Context, Report, Attempt, done, missing, raised, Action, Platform}
use lunatic92i.Playbooks.Targets.{
  User, World, Details, nothing, target, opened, message, acted_on, Services, get, target_ip,
  target_host, target_email, asset_by_host, user_by_email, with_target,
}
use lunatic92i.Playbooks.Actions.{
  Effect, report, finished, previewed, log, row_of, enrich_ip, enrich_host, enrich_user, check_ioc,
  calculate_reputation, title_of, draft_of, param_or,
}

-- `context.incident = incident`
unfoldable pub opened_by :
    Context Details → World → Option (Outcome Incident × IncidentDb) → Attempt Effect
unfolding finished
opened_by context w none = raised
opened_by context w (some (err e, after)) = raised
opened_by context w (some (ok incident, after)) =
    finished (codes "create_incident") (codes "Opened " ++ incident.display_id)
      (opened incident.id incident.display_id) (record context { incident = some incident })
      (record w { tables = after })

-- `CreateIncidentAction`
unfoldable pub open_incident : World → Context Details → Attempt Effect
unfolding opened_by create_incident draft_of
open_incident w context = opened_by context w (
    create_incident w.tables context.tenant_id (draft_of context) context.actor_id none
      context.moment)

-- The entry of `NotifyAnalystAction` in the log, on the incident or else the alert.
unfoldable pub notice : Context Details → Text → World → World
unfolding log row_of
notice context body w = elim context.incident [
  | some incident ↦ log w (
      row_of context (codes "PLAYBOOK_NOTIFY") (codes "incident") (some (decimal incident.id)) none
        ((codes "message", text body) ∷ []))
  | none ↦ log w (
      row_of context (codes "PLAYBOOK_NOTIFY") (codes "alert")
        (elim context.alert [ none ↦ none | some alert ↦ some (decimal alert.id) ]) none
        ((codes "message", text body) ∷ []))
]

-- After the note, if there is an incident to note it on.
unfoldable pub notified :
    Context Details → Text → World → Outcome IncidentNote × IncidentDb → Attempt Effect
unfolding finished notice
notified context body w (err e, after) = raised
notified context body w (ok remark, after) =
    finished (codes "notify_analyst") (codes "Analyst notified") (message body) context
      (notice context body (record w { tables = after }))

unfoldable pub case_of : Context Details → Incident → Case
case_of context incident = record {
  tenant_id = context.tenant_id;
  incident_id = incident.id;
  actor_id = context.actor_id;
}

unfoldable pub notify : Option Incident → Text → World → Context Details → Attempt Effect
unfolding notified add_note case_of finished notice
notify (some incident) body w context =
    notified context body w (add_note w.tables (case_of context incident) body)
notify none body w context =
    finished (codes "notify_analyst") (codes "Analyst notified") (message body) context
      (notice context body w)

-- `NotifyAnalystAction`
unfoldable pub notify_analyst : World → Context Details → Attempt Effect
unfolding param_or notify
notify_analyst w context =
    notify context.incident (param_or (codes "message") (codes "Playbook run completed.") context) w
      context

unfoldable pub disabled : Context Details → User → World → World
unfolding log row_of update
disabled context user w =
    log
      (record w {
        users =
            update (λ (u : User). u.id == user.id) (λ _. record user { is_active = false }) w.users;
      })
      (row_of context (codes "PLAYBOOK_DISABLE_USER") (codes "user") (some (decimal user.id))
        (some ((codes "is_active", flag user.is_active) ∷ []))
        ((codes "is_active", flag false) ∷ []))

unfoldable pub isolated : Context Details → Asset → World → World
unfolding log row_of update
isolated context asset w =
    let after = record asset { is_isolated = true; isolated_at = some context.moment.now } in
    log
      (record w {
        tables = record w.tables {
          assets = update (λ (a : Asset). a.id == asset.id) (λ _. after) w.tables.assets;
        };
      })
      (row_of context (codes "PLAYBOOK_ISOLATE_HOST") (codes "asset") (some (decimal asset.id))
        (some ((codes "is_isolated", flag asset.is_isolated) ∷ []))
        ((codes "is_isolated", flag true) ∷ []))

-- `IsolateHostAction.execute`
unfoldable pub isolate_host : World → Context Details → Attempt Effect
unfolding with_target target_host asset_by_host isolated finished
isolate_host w context = with_target (target_host context) (λ hostname.
    elim (asset_by_host w context.tenant_id hostname) [
      | none ↦ missing (codes "no asset registered with hostname " ++ hostname)
      | some asset ↦
          finished (codes "isolate_host") (codes "Marked " ++ (hostname ++ codes " contained"))
            (acted_on asset.id hostname) context (isolated context asset w)
    ])

-- The preview of an indicator check.
unfoldable pub checked : Attempt Text → Attempt (Report Details)
unfolding report
checked (done ip) =
    done (report (codes "Would check " ++ (ip ++ codes " against known indicators")) nothing)
checked (missing m) = missing m
checked raised = raised

-- The preview of a destructive action.
unfoldable pub warned : Text → Text → Attempt Text → Attempt (Report Details)
unfolding report
warned before after (done t) = done (report (before ++ (t ++ after)) (target t true))
warned before after (missing m) = missing m
warned before after raised = raised

abbrev pub says : Text → Attempt (Report Details)
says summary = done (report summary nothing)

-- The names of `ACTION_REGISTRY`.
pub data ActionName : Type 0 where
  of_enrich_ip of_enrich_host of_enrich_user of_check_ioc of_calculate_reputation
        of_create_incident :
      ActionName
  of_notify_analyst of_disable_user of_isolate_host : ActionName

abbrev pub action_names : List (Text × ActionName)
action_names =
    (codes "enrich_ip", of_enrich_ip)
    ∷ (codes "enrich_host", of_enrich_host)
    ∷ (codes "enrich_user", of_enrich_user)
    ∷ (codes "check_ioc", of_check_ioc)
    ∷ (codes "calculate_reputation", of_calculate_reputation)
    ∷ (codes "create_incident", of_create_incident)
    ∷ (codes "notify_analyst", of_notify_analyst)
    ∷ (codes "disable_user", of_disable_user)
    ∷ (codes "isolate_host", of_isolate_host)
    ∷ []

abbrev pub plain :
    (World → Context Details → Attempt (Report Details))
    → (World → Context Details → Attempt Effect)
    → Action World Details
plain dry_run execute = record { is_destructive = false; dry_run = dry_run; execute = execute }

abbrev pub gated :
    (World → Context Details → Attempt (Report Details))
    → (World → Context Details → Attempt Effect)
    → Action World Details
gated dry_run execute = record { is_destructive = true; dry_run = dry_run; execute = execute }

module _ (services : Services) where
  -- `DisableUserAction.execute`
  unfoldable pub disable_user : World → Context Details → Attempt Effect
  unfolding with_target target_email user_by_email disabled finished
  disable_user w context = with_target (target_email context) (λ email.
      elim (user_by_email services.fold_case w context.tenant_id email) [
        | none ↦ missing (codes "no user account found for " ++ email)
        | some user ↦
            finished (codes "disable_user") (codes "Disabled account " ++ email)
              (acted_on user.id email) context (disabled context user w)
      ])

  unfoldable pub action_of : ActionName → Action World Details
  unfolding previewed checked warned title_of target_ip target_host target_email enrich_ip
      enrich_host enrich_user check_ioc calculate_reputation open_incident notify_analyst
      disable_user isolate_host
  action_of of_enrich_ip =
      plain (λ w c. previewed (codes "Would look up asset and network context for ") (target_ip c))
        (enrich_ip services)
  action_of of_enrich_host =
      plain (λ w c. previewed (codes "Would look up asset context for ") (target_host c))
        (enrich_host services)
  action_of of_enrich_user =
      plain (λ w c. previewed (codes "Would look up account context for ") (target_email c))
        (enrich_user services)
  action_of of_check_ioc = plain (λ w c. checked (target_ip c)) (check_ioc services)
  action_of of_calculate_reputation =
      plain (λ w c. says (codes "Would compute a reputation score from prior enrichment"))
        calculate_reputation
  action_of of_create_incident =
      plain (λ w c. says (codes "Would open an incident: " ++ title_of c)) open_incident
  action_of of_notify_analyst =
      plain (λ w c. says (codes "Would record a note on the incident and an audit entry"))
        notify_analyst
  action_of of_disable_user =
      gated (λ w c. warned (codes "Would disable the account ") [] (target_email c)) disable_user
  action_of of_isolate_host =
      gated (λ w c. warned (codes "Would mark ") (codes " contained") (target_host c)) isolate_host

  -- `ACTION_REGISTRY` and the rest of what the engine uses.
  unfoldable pub registry : Text → Option (Action World Details)
  unfolding get action_of
  registry name = elim (get name action_names) [ none ↦ none | some which ↦ some (action_of which) ]

  unfoldable pub platform : Platform World Details
  unfolding registry log find_alert find
  platform = record {
    registry = registry;
    write_audit = λ row w. log w row;
    alert_of = λ w i. find (λ (a : Alert). a.id == i) w.tables.alerts;
    incident_of = λ w i. find (λ (x : Incident). x.id == i) w.tables.incidents;
    alert_in = λ w tenant i. find_alert w.tables tenant i;
    no_details = nothing;
  }
