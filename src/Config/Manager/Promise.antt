-- ===== src/Config/Manager/Promise.antt =====
-- An invalidation is not forgotten.
use huxio.Prelude.{
  ℕ, ◌≡◌, refl, Bool, true, false, Option, none, some, List, [], ◌∷◌, String, ◌⊎◌, inl, arith,
  if◌then◌else◌,
}
use huxio.Prelude.Dict.{Dict}
use huxio.Config.Snapshot.{SnapshotData}
use huxio.Config.Manager.{
  Manager, Phase, waiting, debouncing, drained, Loaded, new_manager, invalidate, load, load_answer,
  refresh, refresh_in, receive, receive_in, debounced, debounced_in, begin_load, begin_in, end_load,
  end_in,
}

pub data Event : Type 0 where
  invalidates receives refreshes debounce_ends load_begins : Event
  load_ends : Loaded → Event

-- The manager, and whether there was a call of `Invalidate` since a load last began.
pub record World : Type 0 where
  pub manager : Manager
  pub asked : Bool

abbrev pub start : World
start = record { manager = new_manager; asked = false }

-- Whether the event begins a load, in that phase.
begins : Phase → Event → Bool
begins waiting refreshes = true
begins drained load_begins = true
begins _ _ = false

-- A call of `Invalidate` that no load has begun after is still in the channel, or `Run` is on its way
-- from the token to the load that follows it.
pub IsPromised : World → Type 0
IsPromised w =
    (w.asked ≡ false)
    ⊎ ((w.manager.reload ≡ true) ⊎ ((w.manager.phase ≡ debouncing) ⊎ (w.manager.phase ≡ drained)))

module _ (open_sealed : String → Option (List ℕ)) (parse : String → Option (Dict String)) where
  -- What an event does to the manager.
  react : Event → Manager → Manager
  react invalidates m = invalidate m
  react receives m = receive m
  react refreshes m = refresh m
  react debounce_ends m = debounced m
  react load_begins m = begin_load m
  react (load_ends a) m = end_load open_sealed parse a m

  asks : Event → Bool → Bool
  asks invalidates asked = true
  asks _ asked = asked

  unfoldable pub step : World → Event → World
  unfolding begins react asks
  step w e = record {
    manager = react e w.manager;
    asked = if begins w.manager.phase e then false else asks e w.asked;
  }

  unfoldable pub run : World → List Event → World
  unfolding step
  run w [] = w
  run w (e ∷ es) = run (step w e) es

  load_answer-reload :
      (now : ℕ) (o : Option SnapshotData) (m : Manager)
      → (load_answer open_sealed parse now o m).reload ≡ m.reload
  unfolding load_answer
  load_answer-reload now none m = refl
  load_answer-reload now (some data_set) m = refl

  step-IsPromised : (w : World) (e : Event) → IsPromised w → IsPromised (step w e)
  unfolding step IsPromised begins react asks invalidate receive receive_in refresh refresh_in
      debounced debounced_in begin_load begin_in end_load end_in load
  step-IsPromised w invalidates h = ground arith
  step-IsPromised w receives h = ground arith
  step-IsPromised w refreshes h = ground arith
  step-IsPromised w debounce_ends h = ground arith
  step-IsPromised w load_begins h = ground arith
  step-IsPromised w (load_ends a) h = ground (arith, load_answer-reload a.now a.answer w.manager)

  run_keeps : (w : World) (es : List Event) → IsPromised w → IsPromised (run w es)
  unfolding run
  run_keeps w [] h = h
  run_keeps w (e ∷ es) h = run_keeps (step w e) es (step-IsPromised w e h)

-- No invalidation is lost: whenever it comes, also while a load runs, a burst is waited for or the
-- channel has just been drained, a load has begun after it, or a token for one is in the channel, or
-- `Run` has taken a token and not yet begun the load that follows.
pub run-IsPromised :
    (open_sealed : String → Option (List ℕ)) (parse : String → Option (Dict String))
    (es : List Event)
    → IsPromised (run open_sealed parse start es)
unfolding IsPromised new_manager
run-IsPromised open_sealed parse es = run_keeps open_sealed parse start es (inl refl)
