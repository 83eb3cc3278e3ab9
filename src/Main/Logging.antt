-- ===== src/Main/Logging.antt =====
-- The callback that `cmd_run` sets: what a managed service prints, in its log.
use frequent_cron.Base.{ℕ, ◌≡◌, String, Bool, true, List, [], ◌∷◌, ◌++◌, string_eq, nat_eq}
use frequent_cron.Base.Lists.{length}
use frequent_cron.External.{Double, Random}
use frequent_cron.Process.{Bytes, run_process}
use frequent_cron.LogManager.{Files, LogManager, write}
use frequent_cron.LogManager.Writing.{added}
use frequent_cron.Config.{Config}
use frequent_cron.Executor.{
  Executor, Event, completed, stop_called, success, operation_aborted, other_error,
}
use frequent_cron.Executor.Order.{outputs}

-- What a call of the callback finds: whether the log can be opened, and the time.
abbrev pub Found : Type 0
Found = ℕ → Bool × Bytes

module _ (lm : LogManager) (name : String) (found : Found) where
  -- log_mgr->write( name, output ) for each output that was handed on, the latest first.
  unfoldable pub log_outputs : List Bytes → Files → Files
  log_outputs [] fs = fs
  log_outputs (out ∷ outs) fs =
      let (opens, time) = found (length outs) in write lm opens time name out (log_outputs outs fs)

  -- The entries of these outputs, the oldest first.
  unfoldable pub entries : List Bytes → Bytes
  entries [] = []
  entries (out ∷ outs) =
      let (opens, time) = found (length outs) in entries outs ++ added lm name opens time out

-- What the command prints at each wait that runs to its end, put before `acc`: the latest first.
unfoldable pub printed : List Event → List Bytes → List Bytes
printed [] acc = acc
printed (completed t ∷ vs) acc = elim t.error [
  | success ↦ printed vs ((run_process t.pipe).stdout_data ∷ acc)
  | operation_aborted ↦ printed vs acc
  | other_error ↦ printed vs acc
]
printed (stop_called ∷ vs) acc = printed vs acc

module _ {D : Type 0} (d : Double D) (r : Random D) where
  -- A synchronous executor that fires at every wait and hands the output on.
  abbrev Captures : List Bytes → Executor D r.State → Type 0
  Captures outs e =
      (e.synchronous ≡ true)
      × (e.output_callback ≡ true)
      × (d.le d.one e.fire_probability ≡ true)
      × (outputs e.trace ≡ outs)
