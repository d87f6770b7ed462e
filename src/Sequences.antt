-- ===== src/Sequences.antt =====
-- The per-tenant, per-year counters behind display ids: `AlertSequence` of
-- backend/app/models/alerts.py, `IncidentSequence` of backend/app/models/incidents.py, and what
-- `next_display_id` of backend/app/services/alerts.py and backend/app/services/incidents.py share.
pub mod Laws
use lunatic92i.Common.{
  ℕ, ◌+◌, Bool, ◌&&◌, Option, none, some, List, [], ◌∷◌, ◌++◌, Text, codes, ◌==◌, if◌then◌else◌,
  any, find, update,
}
use lunatic92i.Common.Decimal.{decimal, padded}

pub record Sequence : Type 0 where
  pub tenant_id : ℕ
  pub year : ℕ
  pub last_number : ℕ

unfoldable pub is_sequence : ℕ → ℕ → Sequence → Bool
is_sequence tenant year row = (row.tenant_id == tenant) && (row.year == year)

-- `INSERT ... ON CONFLICT DO NOTHING` of a counter that starts at 0.
unfoldable pub ensure_sequence : ℕ → ℕ → List Sequence → List Sequence
ensure_sequence tenant year rows =
    if any (is_sequence tenant year) rows
    then rows
    else rows ++ record { tenant_id = tenant; year = year; last_number = 0 } ∷ []

unfoldable pub bump : Sequence → Sequence
bump row = record row { last_number = row.last_number + 1 }

-- The next number and the counters after it; `none` is the exception of `scalar_one` on no row.
unfoldable pub next_number : ℕ → ℕ → List Sequence → Option (ℕ × List Sequence)
next_number tenant year rows =
    let ensured = ensure_sequence tenant year rows in
    elim (find (is_sequence tenant year) ensured) [
      | none ↦ none
      | some row ↦ some (row.last_number + 1, update (is_sequence tenant year) bump ensured)
    ]

-- f"{prefix}-{year}-{number:06d}"
unfoldable pub numbered : Text → ℕ → ℕ → Text
numbered prefix year number = prefix ++ (decimal year ++ (codes "-" ++ padded 6 number))
