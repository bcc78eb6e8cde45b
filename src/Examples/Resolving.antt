-- ===== src/Examples/Resolving.antt =====
-- A run that sees person 5 in its transaction, in a savepoint that it releases and in one that it
-- rolls back, commits and sees company 8.
use one_ai.Prelude.{ℕ, ◌≤◌, true, List, [], ◌∷◌, refl}
use one_ai.Entities.Cache.{Datetime, empty_cache, company, seen, uuid, window, seen_window_covers}
use one_ai.Entities.Cache.Facts.{
  Scopes, Event, seen_pushed, company_resolved, savepoint_opened, savepoint_released,
  savepoint_rolled_back, committed, execute_all, react_all, IsBacked,
}
use one_ai.Entities.Cache.Live.{IsHeld, lookup-IsHeld, seen_window_covers-IsHeld}

abbrev day : ℕ → Datetime
day n = record { is_aware = true; at = n }

abbrev events : List Event
events =
    seen_pushed 1 5 (day 10)
    ∷ savepoint_opened
    ∷ seen_pushed 1 5 (day 20)
    ∷ savepoint_released
    ∷ committed
    ∷ savepoint_opened
    ∷ seen_pushed 1 5 (day 40)
    ∷ savepoint_rolled_back
    ∷ company_resolved 1 "example.org" 8
    ∷ []

abbrev written : Scopes
written = record {
  committed = (seen 1 5, window (day 20) (day 20)) ∷ (seen 1 5, window (day 10) (day 10)) ∷ [];
  base = (company 1 "example.org", uuid 8) ∷ [];
  savepoints = [];
}

lookup-IsHeld_example : IsBacked (IsHeld written) (company 1 "example.org") (uuid 8)
unfolding one_ai.Entities.Cache.lookup react_all execute_all
lookup-IsHeld_example = lookup-IsHeld events written (company 1 "example.org") (uuid 8) refl refl

seen_window_covers-IsHeld_example :
    (low : Datetime) × (high : Datetime) × IsHeld written (seen 1 5, window low low)
    × IsHeld written (seen 1 5, window high high)
    × (low.at ≤ 15)
    × (15 ≤ high.at)
unfolding seen_window_covers react_all execute_all
seen_window_covers-IsHeld_example = seen_window_covers-IsHeld events written 1 5 (day 15) refl refl
