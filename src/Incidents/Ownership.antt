-- ===== src/Incidents/Ownership.antt =====
-- Whose rows are linked to an incident: backend/app/services/incidents.py, `link_alert`, `link_asset` and
-- `link_ioc`.
use lunatic92i.Common.{
  ℕ, ◌≡◌, inl, inr, refl, sym, ◌∙◌, ap, Bool, true, false, ◌&&◌, some, List, [], ◌∷◌, ◌++◌, arith,
  ◌≤◌, ◌==◌, ==_iff, length, any, keep, keep-append, append-nil, All, All-append, All-imp, update,
  any-append, Bool-cases,
}
use lunatic92i.Common.Keys.{Distinct, find-has_key, update-Distinct, snoc-Distinct, any-update_row}
use lunatic92i.Alerts.Model.{Alert}
use lunatic92i.Incidents.Model.{Incident, Link, Asset, Ioc, IncidentDb}
use lunatic92i.Incidents.Links.{Case, is_incident, is_link, is_visible, link_of, get_incident}
use lunatic92i.Incidents.Opening.{has_id}

module _ {A : Type 0} where
  keep-none : (p : A → Bool) (xs : List A) → any p xs ≡ false → keep p xs ≡ []
  unfolding keep any
  keep-none p [] h = refl
  keep-none p (x ∷ xs) h = ground (arith, keep-none p xs)

  -- Appending a row that passes only if none did leaves at most one that passes.
  pub keep-once :
      (p : A → Bool) (xs : List A) (y : A)
      → length (keep p xs) ≤ 1
      → (p y ≡ true → any p xs ≡ false)
      → length (keep p (xs ++ y ∷ [])) ≤ 1
  keep-once p xs y h new = elim (Bool-cases (p y)) [
    | inl t ↦
        rw (keep-append p xs (y ∷ []), keep-none p xs (new t)) (unfold keep in rw t (omega arith))
    | inr t ↦ rw (keep-append p xs (y ∷ [])) (unfold keep in rw (t, append-nil (keep p xs)) h)
  ]

-- The test of a table for a row of the tenant and the id, which a link may name.
abbrev pub has_alert : List Alert → ℕ → ℕ → Bool
has_alert alerts tenant i = any (λ a. (a.id == i) && (a.tenant_id == tenant)) alerts

abbrev pub has_asset : List Asset → ℕ → ℕ → Bool
has_asset assets tenant i = any (λ a. (a.id == i) && (a.tenant_id == tenant)) assets

-- An indicator of the tenant or of nobody.
abbrev pub has_ioc : List Ioc → ℕ → ℕ → Bool
has_ioc iocs tenant i = any (λ x. (x.id == i) && is_visible tenant x.tenant_id) iocs

-- The incident and the target are rows of the link's tenant.
abbrev pub IsJoined : (ℕ → ℕ → Bool) → List Incident → Link → Type 0
IsJoined has incidents link =
    (any (is_incident link.tenant_id link.incident_id) incidents ≡ true)
    × (has link.tenant_id link.target_id ≡ true)

pub record IsOwned (has : ℕ → ℕ → Bool) (incidents : List Incident) (links : List Link)
    : Type 0 where
  pub joined : All (IsJoined has incidents) links
  pub once : (incident target : ℕ) → length (keep (is_link incident target) links) ≤ 1

pub record OwnsAll (db : IncidentDb) : Type 0 where
  pub keys : Distinct (λ (x : Incident). x.id) db.incidents
  pub of_alerts : IsOwned (has_alert db.alerts) db.incidents db.alert_links
  pub of_assets : IsOwned (has_asset db.assets) db.incidents db.asset_links
  pub of_iocs : IsOwned (has_ioc db.iocs) db.incidents db.ioc_links

-- The link is for another pair, or its pair had none.
link_of-new :
    (c : Case) (links : List Link) (target i j : ℕ)
    → any (is_link c.incident_id target) links ≡ false
    → is_link i j (link_of c target) ≡ true
    → any (is_link i j) links ≡ false
unfolding is_link link_of
link_of-new c links target i j new same =
    let at_i = (==_iff c.incident_id i).0 (ground (arith, same)) in
    let at_j = (==_iff target j).0 (ground (arith, same)) in
    ap (λ n. any (is_link n j) links) (sym at_i)
    ∙ ap (λ n. any (is_link c.incident_id n) links) (sym at_j)
    ∙ new

module _ {has : ℕ → ℕ → Bool} {links : List Link} where
  pub grown-IsOwned :
      (old incidents : List Incident)
      → ((tenant i : ℕ)
          → any (is_incident tenant i) old ≡ true
          → any (is_incident tenant i) incidents ≡ true)
      → IsOwned has old links
      → IsOwned has incidents links
  grown-IsOwned old incidents grow h = record {
    joined =
        All-imp (IsJoined has old) (IsJoined has incidents) links
          (λ link k. (grow link.tenant_id link.incident_id k.0, k.1)) h.joined;
    once = h.once;
  }

  pub linked-IsOwned :
      (c : Case) (incidents : List Incident) (target : ℕ)
      → any (is_incident c.tenant_id c.incident_id) incidents ≡ true
      → has c.tenant_id target ≡ true
      → any (is_link c.incident_id target) links ≡ false
      → IsOwned has incidents links
      → IsOwned has incidents (links ++ link_of c target ∷ [])
  linked-IsOwned c incidents target here there new h = record {
    joined =
        All-append (IsJoined has incidents) links _ h.joined
          ((unfold link_of in here, unfold link_of in there), tt);
    once = λ i j.
        keep-once (is_link i j) links (link_of c target) (h.once i j)
          (link_of-new c links target i j new);
  }

module _ (db : IncidentDb) (h : OwnsAll db) where
  -- Writing an incident back with its id and its tenant as they were.
  pub written-OwnsAll :
      (tenant i : ℕ) (incident after : Incident)
      → get_incident db tenant i ≡ some incident
      → after.id ≡ incident.id
      → after.tenant_id ≡ incident.tenant_id
      → OwnsAll (record db { incidents = update (has_id incident.id) (λ _. after) db.incidents })
  unfolding get_incident
  written-OwnsAll tenant i incident after found same_id same_tenant = record {
    keys =
        update-Distinct (λ (x : Incident). x.id) (has_id incident.id) (λ _. after) db.incidents
          (λ x k. same_id ∙ sym ((==_iff x.id incident.id).0 k)) h.keys;
    of_alerts = grown-IsOwned db.incidents _ grow h.of_alerts;
    of_assets = grown-IsOwned db.incidents _ grow h.of_assets;
    of_iocs = grown-IsOwned db.incidents _ grow h.of_iocs;
  }
    where
      grow :
          (t j : ℕ)
          → any (is_incident t j) db.incidents ≡ true
          → any (is_incident t j) (update (has_id incident.id) (λ _. after) db.incidents) ≡ true
      grow t j k =
          any-update_row (λ (x : Incident). x.id) (is_incident t j) db.incidents incident after
            h.keys
            (find-has_key (λ (x : Incident). x.id) (is_incident tenant i) db.incidents incident
              h.keys found)
            (unfold is_incident in rw (same_id, same_tenant))
          ∙ k

  pub born-OwnsAll :
      (incident : Incident)
      → any (has_id incident.id) db.incidents ≡ false
      → OwnsAll (record db { incidents = db.incidents ++ incident ∷ [] })
  born-OwnsAll incident fresh = record {
    keys = snoc-Distinct (λ (x : Incident). x.id) db.incidents incident fresh h.keys;
    of_alerts = grown-IsOwned db.incidents _ grow h.of_alerts;
    of_assets = grown-IsOwned db.incidents _ grow h.of_assets;
    of_iocs = grown-IsOwned db.incidents _ grow h.of_iocs;
  }
    where
      grow :
          (t j : ℕ)
          → any (is_incident t j) db.incidents ≡ true
          → any (is_incident t j) (db.incidents ++ incident ∷ []) ≡ true
      grow t j k = any-append (is_incident t j) db.incidents (incident ∷ []) ∙ rw k
