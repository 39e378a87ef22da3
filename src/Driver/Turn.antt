-- ===== src/Driver/Turn.antt =====
-- src/driver.rs: one turn of the loop in `JobDriver::run`, with what it does after an error.
use kaiion.Prelude.{String, Option, none, some, ◌∷◌, Result, ok, err, if◌then◌else◌}
use mathlib.Core.Logic.{ite}
use kaiion.Json.{Value}
use kaiion.Domain.{Job, JobState, JobState-discrete, failed, is_terminal}
use kaiion.Db.Rows.{PersistenceError}
use kaiion.Db.Transitions.{get_job}
use kaiion.Driver.Output.{DriverError, conflict, retry, permanent, failed_response}
use kaiion.Driver.World.{World, Outside, statement, published}
use kaiion.Driver.Advance.{advance, store}

-- How a turn ends: the loop returns, goes on at once, or sleeps for the poll interval first. The
-- state is the one that the next turn starts from.
pub data Flow : Type 0 where
  stop again sleep : JobState → Flow

-- `sender.send_replace`
unfoldable pub publish : Job → JobState → World → World
publish job state w = record w { trace = published job.id state ∷ w.trace }

-- Publish the state, and return if it is terminal.
unfoldable pub settle : Job → JobState → World → Flow × World
unfolding publish
settle job state w = (if is_terminal state then stop state else again state, publish job state w)

-- `driver_state`: an error is logged and becomes `none`.
abbrev pub readable_state : Result PersistenceError Job → Option JobState
readable_state (ok job) = some job.state
readable_state (err e) = none

module _ (o : Outside) where
  unfoldable pub driver_state : Job → World → Option JobState × World
  unfolding get_job
  driver_state job w = (
    readable_state (get_job (o.engine w.trace) o.codec job.id w.db),
    record w { trace = statement ∷ w.trace },
  )

  -- `if let Some(state) = self.driver_state(…)`: go on from the stored state, if it can be read.
  unfoldable pub reconcile : Job → (otherwise : Flow) → World → Flow × World
  unfolding driver_state settle
  reconcile job otherwise w =
      let (found, w') = driver_state job w in
      elim found [ some state ↦ settle job state w' | none ↦ (otherwise, w') ]

  -- The arms of `match store_outcome(…)` after a permanent error.
  unfoldable pub after_store : Job → Result DriverError JobState → World → Flow × World
  unfolding publish reconcile
  after_store job (ok state) w = (stop state, publish job state w)
  after_store job (err conflict) w = reconcile job (again job.state) w
  after_store job (err _) w = (sleep job.state, w)

  -- The arm of `Err(DriverError::Permanent(error))`.
  unfoldable pub on_permanent : Job → String → World → Flow × World
  unfolding after_store failed_response store
  on_permanent job message w =
      let (r, w') = store o job (failed (failed_response job.model message)) w in
      after_store job r w'

  unfoldable pub after_advance : Job → Result DriverError JobState → World → Flow × World
  unfolding reconcile on_permanent settle
  after_advance job (ok next) w =
      ite (JobState-discrete next job.state) (if is_terminal next then stop next else sleep next, w)
        (settle job next w)
  after_advance job (err conflict) w = reconcile job (sleep job.state) w
  after_advance job (err (retry message)) w = (sleep job.state, w)
  after_advance job (err (permanent message)) w = on_permanent job message w

  unfoldable pub turn : Job → Value → World → Flow × World
  unfolding advance after_advance
  turn job body w = let (r, w') = advance o job body w in after_advance job r w'
