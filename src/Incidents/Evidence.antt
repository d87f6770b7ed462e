-- ===== src/Incidents/Evidence.antt =====
-- The evidence of an incident: backend/app/services/incidents.py, `evidence_event_ids`.
use lunatic92i.Common.{
  ℕ, ◌≡◌, inl, inr, refl, ◌∙◌, ap, Bool, true, ◌&&◌, ◌||◌, List, [], ◌∷◌, arith, ◌≤◌, Text, text_eq,
  text_eq-eq, ◌==◌, length, keep, any, any-append, Bool-cases,
}
use lunatic92i.Alerts.Model.{Alert}
use lunatic92i.Incidents.Model.{Link, IncidentDb}
use lunatic92i.Incidents.Queries.{
  is_of_case, join_rows, insert_by_risk, sort_by_risk, linked_alerts, see, see_all, see_alerts,
  evidence_event_ids,
}
use lunatic92i.Incidents.Ownership.{keep-once}

-- A list of ids holds an id, or an alert cites it.
abbrev pub holds : Text → List Text → Bool
holds t ids = any (text_eq t) ids

abbrev pub cites : Text → Alert → Bool
cites t alert = holds t alert.event_ids

holds-see :
    (t : Text) (seen : List Text) (e : Text) → holds t (see seen e) ≡ (holds t seen || text_eq t e)
unfolding see
holds-see t seen e = elim (Bool-cases (any (text_eq e) seen)) [
  | inr new ↦ rw (new, any-append (text_eq t) seen (e ∷ [])) (unfold any in ground arith)
  | inl old ↦ elim (Bool-cases (text_eq t e)) [
    | inr away ↦ rw (old, away) (ground arith)
    | inl same ↦
        let there : holds t seen ≡ true =
          ap (λ x. any (text_eq x) seen) (text_eq-eq t e same) ∙ old in
        rw (old, same, there) refl
  ]
]

holds-see_all :
    (t : Text) (seen ids : List Text) → holds t (see_all seen ids) ≡ (holds t seen || holds t ids)
unfolding see_all any
holds-see_all t seen [] = ground arith
holds-see_all t seen (e ∷ ids) =
    holds-see_all t (see seen e) ids ∙ ground (arith, holds-see t seen e)

holds-see_alerts :
    (t : Text) (seen : List Text) (alerts : List Alert)
    → holds t (see_alerts seen alerts) ≡ (holds t seen || any (cites t) alerts)
unfolding see_alerts any
holds-see_alerts t seen [] = ground arith
holds-see_alerts t seen (a ∷ alerts) =
    holds-see_alerts t (see_all seen a.event_ids) alerts
    ∙ ground (arith, holds-see_all t seen a.event_ids)

module _ (p : Alert → Bool) where
  any-insert :
      (a : Alert) (alerts : List Alert) → any p (insert_by_risk a alerts) ≡ any p (a ∷ alerts)
  unfolding insert_by_risk any
  any-insert a [] = refl
  any-insert a (b ∷ alerts) = ground (arith, any-insert a alerts)

  any-sort : (alerts : List Alert) → any p (sort_by_risk alerts) ≡ any p alerts
  unfolding sort_by_risk any
  any-sort [] = refl
  any-sort (a ∷ alerts) = any-insert a (sort_by_risk alerts) ∙ ground (arith, any-sort alerts)

any-keep :
    {A : Type 0} (p q : A → Bool) (xs : List A) → any p (keep q xs) ≡ any (λ x. q x && p x) xs
unfolding any keep
any-keep p q [] = refl
any-keep p q (x ∷ xs) = ground (arith, any-keep p q xs)

-- Some link of the case leads to a row that passes.
any-join_rows :
    {A : Type 0} (p : A → Bool) (id_of : A → ℕ) (rows : List A) (links : List Link) (tenant i : ℕ)
    → any p (join_rows id_of rows links tenant i)
      ≡ any
          (λ link. is_of_case tenant i link && any (λ a. (id_of a == link.target_id) && p a) rows)
          links
unfolding join_rows any
any-join_rows p id_of rows [] tenant i = refl
any-join_rows p id_of rows (link ∷ links) tenant i =
    let rest = any-join_rows p id_of rows links tenant i in
    elim (Bool-cases (is_of_case tenant i link)) [
      | inr t ↦ rw t rest
      | inl t ↦ rw t (
          any-append p (keep (λ a. id_of a == link.target_id) rows)
            (join_rows id_of rows links tenant i)
          ∙ rw (any-keep p (λ a. id_of a == link.target_id) rows, rest))
    ]

module _ (t : Text) where
  see_once :
      (seen : List Text) (e : Text)
      → length (keep (text_eq t) seen) ≤ 1
      → length (keep (text_eq t) (see seen e)) ≤ 1
  unfolding see
  see_once seen e h = elim (Bool-cases (any (text_eq e) seen)) [
    | inl old ↦ rw old h
    | inr new ↦ rw new (
        keep-once (text_eq t) seen e h
          (λ same. ap (λ x. any (text_eq x) seen) (text_eq-eq t e same) ∙ new))
  ]

  see_all_once :
      (seen ids : List Text)
      → length (keep (text_eq t) seen) ≤ 1
      → length (keep (text_eq t) (see_all seen ids)) ≤ 1
  unfolding see_all
  see_all_once seen [] h = h
  see_all_once seen (e ∷ ids) h = see_all_once (see seen e) ids (see_once seen e h)

  see_alerts_once :
      (seen : List Text) (alerts : List Alert)
      → length (keep (text_eq t) seen) ≤ 1
      → length (keep (text_eq t) (see_alerts seen alerts)) ≤ 1
  unfolding see_alerts
  see_alerts_once seen [] h = h
  see_alerts_once seen (a ∷ alerts) h =
      see_alerts_once (see_all seen a.event_ids) alerts (see_all_once seen a.event_ids h)

-- The evidence of an incident holds an event id exactly if some link of that incident and tenant leads to
-- an alert that cites it, and holds it at most once.
pub evidence_event_ids_lem :
    (db : IncidentDb) (tenant i : ℕ) (t : Text)
    → (holds t (evidence_event_ids db tenant i)
        ≡ any
            (λ link.
              is_of_case tenant i link
              && any (λ (a : Alert). (a.id == link.target_id) && cites t a) db.alerts)
            db.alert_links)
      × (length (keep (text_eq t) (evidence_event_ids db tenant i)) ≤ 1)
unfolding evidence_event_ids linked_alerts
evidence_event_ids_lem db tenant i t =
    let joined = join_rows (λ (a : Alert). a.id) db.alerts db.alert_links tenant i in
    (
      holds-see_alerts t [] (sort_by_risk joined)
          ∙ (unfold any in
              any-sort (cites t) joined
              ∙ any-join_rows (cites t) (λ (a : Alert). a.id) db.alerts db.alert_links tenant i),
      see_alerts_once t [] (sort_by_risk joined) (unfold keep in omega arith),
    )
