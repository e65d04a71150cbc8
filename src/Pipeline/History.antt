-- ===== src/Pipeline/History.antt =====
-- Histories of requests, child exits and spawns. An operation that spawns a step waits there, and
-- whatever else the server receives may come before it goes on.
pub mod Kept
pub mod Invariant
pub mod Sound
pub mod Inert
pub mod Final
pub mod Stuck
use conductor_dashboard.Common.{
  ℕ, suc, ◌≡◌, ◌≢◌, String, Bool, Option, none, some, List, [], ◌∷◌, Rows, insert_row, remove_row,
  if◌then◌else◌,
}
use conductor_dashboard.Pipeline.{Db}
use conductor_dashboard.Pipeline.Spawn.{Spawned, child}
use conductor_dashboard.Pipeline.Ops.{
  Wait, Begun, responds, returns, awaits, pending_of, on_exit, on_error,
}
use conductor_dashboard.Pipeline.Control.{Action, start, advance, cancel, other, post, resume}

-- The tables, and the operations that wait for a spawn, under numbers of this model.
pub record System : Type 0 where
  pub db : Db
  pub waiting : Rows Wait
  pub next_wait : ℕ

-- A request by a user in a workspace; what became of a child of a run's step; or the operation that
-- waits under a number goes on, with what its spawn does. The clock comes with each.
pub data Event : Type 0 where
  request : ℕ → String → ℕ → Action → Event
  exited : ℕ → ℕ → ℕ → Option ℕ → ℕ → Bool → Event
  errored : ℕ → ℕ → ℕ → String → ℕ → Bool → Event
  spawned : ℕ → ℕ → Spawned → Event

-- A step without a template is not spawned, and nothing is awaited.
unfoldable pub launch : ℕ → Wait → Rows Wait → ℕ → Db → System
launch ms w waiting next db =
    if (pending_of w).spawns
    then record { db = db; waiting = insert_row waiting next w; next_wait = suc next }
    else record { db = (resume ms (child none) w db).0; waiting = waiting; next_wait = next }

unfoldable pub begun : ℕ → Rows Wait → ℕ → Db × Begun → System
unfolding launch
begun ms waiting next (db, responds r) = record { db = db; waiting = waiting; next_wait = next }
begun ms waiting next (db, returns) = record { db = db; waiting = waiting; next_wait = next }
begun ms waiting next (db, awaits w) = launch ms w waiting next db

abbrev pub go_on : ℕ → ℕ → Spawned → Option Wait → System → System
go_on ms k sp none s = s
go_on ms k sp (some w) s = record s {
  db = (resume ms sp w s.db).0;
  waiting = remove_row s.waiting k;
}

unfoldable pub handle : Event → System → System
unfolding begun
handle (request ms by ws action) s = begun ms s.waiting s.next_wait (post ms by ws action s.db)
handle (exited ms run i code ws auto) s =
    begun ms s.waiting s.next_wait (on_exit ms run i code ws auto s.db)
handle (errored ms run i message ws auto) s =
    begun ms s.waiting s.next_wait (on_error ms run i message ws auto s.db)
handle (spawned ms k sp) s = go_on ms k sp (s.waiting k) s

unfoldable pub play : List Event → System → System
play [] s = s
play (e ∷ es) s = play es (handle e s)

-- No operation on the run `n` waits for a spawn.
abbrev pub Idle : ℕ → Rows Wait → Type 0
Idle n waiting = (k : ℕ) (w : Wait) → waiting k ≡ some w → n ≢ (pending_of w).run
