-- ===== src/Background/Steps.antt =====
-- What the threads do to the manager of agent/background.py, one critical section at a time, in any
-- order; the second loop of a collection, which runs outside the lock, is one move for each job, and
-- collections run one after the other. A move that is not possible leaves the manager as it is.
use bauhinia_agent.Common.{ℕ, String, Option, none, some, List, [], ◌∷◌, ◌++◌, map, Result}
use bauhinia_agent.Background.{ToolResult, Request, BackgroundNotification, Manager}
use bauhinia_agent.Background.Operations.{
  Cancelled, missing, settled, asked, prevented, start, begin, finish, cancel_locked,
  record_cancellation,
}
use bauhinia_agent.Background.Collect.{
  Callbacks, take_completed, tell_next, close, active_ids, cancel_each,
}

pub data Move : Type 0 where
  starts : Request → (now : ℕ) → Move
  begins : Move
  finishes : (id : ℕ) → Result String ToolResult → Move
  cancels : (id : ℕ) → (session : Option String) → Move
  records : (id : ℕ) → Result String (Unit {0}) → Move
  gathers : (session : Option String) → Move
  tells : Callbacks → Move
  closes : Move

abbrev pub or_same : Manager → Option Manager → Manager
or_same m none = m
or_same m (some n) = n

abbrev pub after_cancel : Manager → Cancelled → Manager
after_cancel m missing = m
after_cancel m (settled j) = m
after_cancel m (asked j n) = n
after_cancel m (prevented j n) = n

-- The manager after the move, and the notifications that the move hands out.
abbrev pub step : Manager → Move → List BackgroundNotification × Manager
step m (starts r now) = ([], (start r now m).1)
step m begins = ([], or_same m (begin m))
step m (finishes id outcome) = ([], or_same m (finish id outcome m))
step m (cancels id session) = ([], after_cancel m (cancel_locked id session m))
step m (records id outcome) = ([], record_cancellation id outcome m)
step m (gathers session) = ([], take_completed session m)
step m (tells callback) = tell_next callback m
step m closes = ([], close m)

unfoldable pub run : Manager → List Move → List BackgroundNotification × Manager
run m [] = ([], m)
run m (move ∷ moves) =
    let (told, n) = step m move in let (later, last) = run n moves in (told ++ later, last)

-- `shutdown`, where the moves are what the threads do while it waits.
unfoldable pub shutdown :
    (ℕ → Result String (Unit {0})) → List Move → Manager → List BackgroundNotification × Manager
unfolding run cancel_each
shutdown recorders meanwhile m =
    let (told, n) = run (cancel_each recorders (active_ids m.jobs) m) meanwhile in (told, close n)

abbrev pub told_ids : List BackgroundNotification → List ℕ
told_ids ns = map (λ (n : BackgroundNotification). n.job_id) ns
