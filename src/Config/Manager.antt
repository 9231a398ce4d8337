-- ===== src/Config/Manager.antt =====
-- internal/application/config/manager.go: keeping the snapshot current.
-- `Run` is a sequence of events: a case that its `select` takes, the draining of the channel, the
-- beginning of a load and its end are one each. A call of `Invalidate` comes from another goroutine, at
-- any time, so also between them. The reload channel holds one token, so it is a Boolean.
-- What the database answers to a load is an argument, as are the sealer and the JSON parser. The age
-- metric and logging are left out.
pub mod Promise
mod Examples
use huxio.Prelude.{
  ℕ, Bool, true, false, Option, none, some, List, [], ◌∷◌, String, str_eq, if◌then◌else◌, ℤ,
  positive_or,
}
use huxio.Prelude.Dict.{Dict}
use huxio.Config.Snapshot.{Snapshot, SnapshotData, build_snapshot}

pub record ManagerOptions : Type 0 where
  pub channel : String
  pub refresh_interval : ℕ
  pub debounce : ℕ

-- The defaults of `NewManager`.
unfoldable pub manager_options : String → ℤ → ℤ → ManagerOptions
manager_options channel refresh debounce = record {
  channel = if str_eq channel "" then "huxio_config" else channel;
  refresh_interval = positive_or refresh 60_000_000_000;
  debounce = positive_or debounce 100_000_000;
}

-- Where `Run` stands: in its outer `select`, in the inner one, which waits for the debounce, between the
-- draining of the channel and the load, or in a load.
pub data Phase : Type 0 where
  waiting debouncing drained loading : Phase

pub record Manager : Type 0 where
  pub current : Option Snapshot
  pub reload : Bool
  pub phase : Phase

unfoldable pub new_manager : Manager
new_manager = record { current = none; reload = false; phase = waiting }

-- `Invalidate`: a token that is there already stands for this call too.
unfoldable pub invalidate : Manager → Manager
invalidate m = record m { reload = true }

-- What `LoadSnapshot` answers, and when the snapshot is built.
pub record Loaded : Type 0 where
  pub now : ℕ
  pub answer : Option SnapshotData

-- The case of the refresh timer, in the outer `select`: a load begins.
refresh_in : Phase → Manager → Manager
refresh_in waiting m = record m { phase = loading }
refresh_in _ m = m

unfoldable pub refresh : Manager → Manager
unfolding refresh_in
refresh m = refresh_in m.phase m

-- A token is received, in the outer `select`.
receive_in : Phase → Manager → Manager
receive_in waiting m = if m.reload then record m { reload = false; phase = debouncing } else m
receive_in _ m = m

unfoldable pub receive : Manager → Manager
unfolding receive_in
receive m = receive_in m.phase m

-- The debounce is over, and the channel is drained.
debounced_in : Phase → Manager → Manager
debounced_in debouncing m = record m { reload = false; phase = drained }
debounced_in _ m = m

unfoldable pub debounced : Manager → Manager
unfolding debounced_in
debounced m = debounced_in m.phase m

-- The load that follows the draining begins.
begin_in : Phase → Manager → Manager
begin_in drained m = record m { phase = loading }
begin_in _ m = m

unfoldable pub begin_load : Manager → Manager
unfolding begin_in
begin_load m = begin_in m.phase m

module _ (open_sealed : String → Option (List ℕ)) (parse : String → Option (Dict String)) where
  -- `Load`, by the answer: an error leaves the snapshot as it is.
  load_answer : ℕ → Option SnapshotData → Manager → Manager
  load_answer now none m = m
  load_answer now (some data_set) m = record m {
    current = some (build_snapshot open_sealed parse now data_set).0;
  }

  unfoldable pub load : Loaded → Manager → Manager
  unfolding load_answer
  load a m = load_answer a.now a.answer m

  -- A load ends, and `Run` goes on with its outer `select`.
  end_in : Phase → Loaded → Manager → Manager
  unfolding load
  end_in loading a m = record (load a m) { phase = waiting }
  end_in _ a m = m

  unfoldable pub end_load : Loaded → Manager → Manager
  unfolding end_in
  end_load a m = end_in m.phase a m
