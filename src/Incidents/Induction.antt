-- ===== src/Incidents/Induction.antt =====
-- Induction over the incident tables that calls of backend/app/services/incidents.py reach.
use lunatic92i.Common.{Bool, List}
use lunatic92i.Alerts.Model.{Alert}
use lunatic92i.Incidents.Model.{Asset, Ioc, IncidentDb}
use lunatic92i.Incidents.Links.{Case}
use lunatic92i.Incidents.Run.{Reach, start, step, start_db}
use lunatic92i.Incidents.Effect.{apply-Writes}
use lunatic92i.Incidents.Writes.{Write, Writes, stop, next}

-- The writes on behalf of any case keep a property.
abbrev pub IsKept : (IncidentDb → Type 0) → Type 0
IsKept P =
    (c : Case) (tracked : Bool) (db after : IncidentDb) → Write c tracked db after → P db → P after

module _ (P : IncidentDb → Type 0) (kept : IsKept P) where
  Writes-keep :
      {c : Case} {tracked : Bool} {db after : IncidentDb}
      → Writes c tracked db after
      → P db
      → P after
  Writes-keep stop h = h
  Writes-keep (next before w) h = kept _ _ _ _ w (Writes-keep before h)

  pub Reach-keeps :
      {alerts : List Alert} {assets : List Asset} {iocs : List Ioc} {db : IncidentDb}
      → P (start_db alerts assets iocs)
      → Reach alerts assets iocs db
      → P db
  Reach-keeps h start = h
  Reach-keeps h (step {db = db} reached op fresh) =
      Writes-keep (apply-Writes db op fresh) (Reach-keeps h reached)
