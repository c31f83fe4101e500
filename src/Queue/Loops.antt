-- ===== src/Queue/Loops.antt =====
-- The connections of the loops of src/queue.rs, and one pass of the mover's loop.
use karet_worker.Common.{ℕ, Bool, true, false, ◌&&◌, not, Option, none, some, ◌%◌, ◌==◌, nat_eq}
use karet_worker.Common.Result.{ok, err}
use karet_worker.Queue.Message.{External}
use karet_worker.Queue.Timers.{mover_round}
use karet_worker.Queue.World.{Proc, connect, ◌>>=◌, pure}

-- The slot holds a connection or not.
unfoldable pub ensure_conn : Bool → Proc Bool
ensure_conn true = pure true
ensure_conn false = do connected ← connect; elim connected [ ok _ ↦ pure true | err _ ↦ pure false ]

-- With a connection: it is given up after a failure.
unfoldable pub move_connected : External → Proc Bool
move_connected x = do moved ← mover_round x; elim moved [ ok _ ↦ pure true | err _ ↦ pure false ]

-- One pass, behind the tick: no slot is left where the loop has ended.
unfoldable pub mover_pass : External → Bool → Bool → Proc (Option Bool)
mover_pass x true slot = pure none
mover_pass x false slot = do
  connected ← ensure_conn slot
  elim connected as (λ _. Proc (Option Bool)) [
    | false ↦ pure (some false)
    | true ↦ do kept ← move_connected x; pure (some kept)
  ]

-- Is this the pass of the reclaimer that sweeps?
unfoldable pub sweeps : Bool → ℕ → Bool
sweeps failed tick = not failed && (tick % 10) == 1
