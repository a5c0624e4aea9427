-- ===== src/Program/Tests.antt =====
-- main.go: the running server on a few events.
use natbox.Prelude.{
  ◌≡◌, refl, none, some, List, [], ◌∷◌, arith, pos, negsuc, ◌≤ℤ◌, ◌*◌, wrap64, ◌*ℤ◌,
}
use natbox.Store.History.{Extends}
use natbox.App.Base.{Request}
use natbox.Api.Tests.{toy, server, setup, moment, call}
use natbox.Program.{Plant, Event, Timing, requested, policy_tick, repair_tick, backup_tick, run}
use natbox.Program.Timers.{minute, interval_of}
use natbox.Program.Intervals.{interval_of_bounds}
use natbox.Program.Sound.{run-Extends}

abbrev plant : Plant toy
plant = record {
  server = server;
  disk = record { files = []; faults = none ∷ some "disk full" ∷ [] };
}

abbrev timing : Timing
timing = record {
  repairs = some minute;
  backups = some (record { directory = "/b"; interval = minute; retention = 2 });
}

abbrev request : Request
request = record {
  now = "t6";
  actor = "system";
  source_ip = "";
  ticks = λ name. 1;
  cause = "context deadline exceeded";
}

abbrev events : List Event
events =
    requested moment (call "POST" "/api/auth/logout")
    ∷ policy_tick 6 request
    ∷ backup_tick (record { now = "t7"; stamp = "7"; nanos = 7; nanos_later = 8 })
    ∷ repair_tick request
    ∷ []

run-Extends_example :
    Extends plant.server.system.db (run setup timing events plant).server.system.db
run-Extends_example = run-Extends setup timing events plant

-- The 360 minutes between two backups where nothing is set.
interval_of_bounds_example :
    (minute ≤ℤ interval_of (negsuc 4)) × (interval_of (pos 360) ≡ pos (360 * 60000000000))
interval_of_bounds_example = interval_of_bounds (negsuc 4) 360 (omega arith) (omega arith)

-- A number of minutes whose nanoseconds overflow int64 becomes one minute.
interval_overflow : interval_of (pos 307445735) ≡ minute
unfolding interval_of wrap64 ◌*ℤ◌
interval_overflow = refl
