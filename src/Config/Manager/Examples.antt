-- ===== src/Config/Manager/Examples.antt =====
-- A burst of invalidations, the last of them during a load, which fails.
use huxio.Prelude.{none, some, List, [], ◌∷◌}
use huxio.Config.Manager.Promise.{
  Event, invalidates, receives, refreshes, debounce_ends, load_begins, load_ends, run, start,
  IsPromised, run-IsPromised,
}
use huxio.Fixtures.{data_set, opens, no_headers}

abbrev burst : List Event
burst =
    refreshes
    ∷ load_ends (record { now = 10; answer = some data_set })
    ∷ invalidates
    ∷ receives
    ∷ invalidates
    ∷ debounce_ends
    ∷ load_begins
    ∷ invalidates
    ∷ load_ends (record { now = 20; answer = none })
    ∷ []

run-IsPromised_example : IsPromised (run opens no_headers start burst)
run-IsPromised_example = run-IsPromised opens no_headers burst
