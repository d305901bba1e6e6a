-- ===== src/Tests/Sessions.antt =====
-- The sessions over a table with one account and one device.
use aime.Base.{ℕ, ◌≡◌, ◌&&◌, refl, true, false, Bool, none, List, [], ◌∷◌}
use aime.Base.Int.{pos}
use aime.Base.Bytes.{bytes}
use aime.Store.Sessions.{Event, open_session, find_session, close_sessions, replay, run_events}
use aime.Store.Sessions.Refines.{run_events-refines}
use aime.Base.Lists.{exists}
use aime.Store.Billing.{account_exists}
use aime.Store.Accounts.{has_device}
use aime.Tests.{world}

-- A session is opened, found, closed with all others, and found no more; the third call meets a
-- failing connection.
abbrev events : List Event
events =
    record { time = pos 50; op = open_session 1 1 (bytes "t") (pos 10) }
    ∷ record { time = pos 55; op = find_session (bytes "t") }
    ∷ record { time = pos 56; op = close_sessions 1 none }
    ∷ record { time = pos 57; op = close_sessions 1 none }
    ∷ record { time = pos 58; op = find_session (bytes "t") }
    ∷ []

abbrev owns : ℕ → ℕ → Bool
owns a d = account_exists a world.conn.db && exists (has_device d) world.conn.db.devices

run_events-refines_example :
    run_events events (record world.conn { faults = false ∷ false ∷ true ∷ [] })
    ≡ replay owns events (false ∷ false ∷ true ∷ []) (λ h. none)
run_events-refines_example =
    run_events-refines owns events (λ h. none)
      (record world.conn { faults = false ∷ false ∷ true ∷ [] }) (λ h. refl) tt (λ a d. refl)
