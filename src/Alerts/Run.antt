-- ===== src/Alerts/Run.antt =====
-- The calls that change an alert, as operations on the tables, and the tables that they reach
-- (backend/app/services/alerts.py).
use lunatic92i.Common.{ℕ, ◌≡◌, false, Option, none, some, Text, any}
use lunatic92i.Alerts.Model.{AlertInput}
use lunatic92i.Alerts.Dedup.{AlertDb, Moment, empty_db, has_id, create_or_update}
use lunatic92i.Alerts.Lifecycle.{Request, transition, assign, add_note}

pub data Op : Type 0 where
  create : AlertInput → ℕ → Moment → Op
  transit : Request → Text → Option Text → ℕ → Op
  hand_over : Request → Option ℕ → Op
  annotate : Request → Text → Op

-- An exception leaves the tables as they were.
unfoldable pub apply : AlertDb → Op → AlertDb
apply db (create payload window m) = elim (create_or_update db payload window m) [
  | none ↦ db
  | some (db', alert, created) ↦ db'
]
apply db (transit r target note now) = (transition db r target note now).1
apply db (hand_over r analyst) = (assign db r analyst).1
apply db (annotate r body) = (add_note db r body).1

-- A new row gets an id that no row has.
abbrev pub IsFresh : AlertDb → Op → Type 0
IsFresh db (create payload window m) = any (has_id m.fresh_id) db.alerts ≡ false
IsFresh db _ = Unit

pub data Reach : AlertDb → Type 0 where
  start : Reach empty_db
  step : {db : AlertDb} → Reach db → (op : Op) → IsFresh db op → Reach (apply db op)
