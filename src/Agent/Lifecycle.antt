-- ===== src/Agent/Lifecycle.antt =====
-- main.py: `Agent.start`, `stop`, `_main_loop` and `_cleanup`. Which calls of the parts raise, and
-- what happens while the main loop sleeps, are arguments; a part is here only held or not. The
-- resolving of the container, the callbacks that `start` registers and the log are left out.
mod Cleanup
mod Ending
mod Examples
use aio_ss_usb_test_agent.Prelude.{
  if◌then◌else◌, Bool, true, false, ◌&&◌, not, Option, none, some, List, [], ◌∷◌, ◌++◌,
}
use aio_ss_usb_test_agent.Prelude.Dict.{Eq, beq, discrete_eq}

-- The fields of an agent that hold a part of it, or None.
pub data Part : Type 0 where
  worker_pool memory_monitor process_monitor mfc_ui_monitor state_monitor mfc_controller : Part
  slot_manager test_executor memory_manager ws_client : Part

unfoldable pub Part-discrete : Discrete Part
Part-discrete = hlevel

instance abbrev pub part_eq : Eq Part
part_eq = discrete_eq Part-discrete

-- A call of a part that has returned. `stopped` is the one that `_cleanup` and `stop` make of it:
-- `stop`, `terminate_all`, `reset_all` or `disconnect`.
pub data Call : Type 0 where
  started stopped : Part → Call

-- `shutdown_event` says whether the event, if there is one, is set.
pub record Lifecycle : Type 0 where
  pub is_running : Bool
  pub shutdown_event : Option Bool
  pub held : Part → Bool
  pub calls : List Call

-- Which constructors, starts and stops raise, and whether the client's task had failed.
pub record Faults : Type 0 where
  pub making : Part → Bool
  pub starting : Part → Bool
  pub stopping : Part → Bool
  pub task_failed : Bool

-- How a call ends: it returns, an exception leaves it, or its task is cancelled.
pub data Ended : Type 0 where
  returned raised cancelled : Ended

-- What the main loop meets in a turn: nothing, a call of `stop`, or an exception. The task is
-- cancelled after the last of the turns that are given.
pub data Turn : Type 0 where
  quiet stop_called failing : Turn

infixl 30 ◌>>◌
abbrev pub ◌>>◌ : Lifecycle × Ended → (Lifecycle → Lifecycle × Ended) → Lifecycle × Ended
(a, Ended.returned) >> k = k a
(a, Ended.raised) >> k = (a, Ended.raised)
(a, Ended.cancelled) >> k = (a, Ended.cancelled)

abbrev pub attempt : Bool → Lifecycle → Lifecycle → Lifecycle × Ended
attempt fails before after = if fails then (before, Ended.raised) else (after, Ended.returned)

abbrev pub set_held : Part → Bool → Lifecycle → Lifecycle
set_held p b a = record a { held = λ q. if beq p q then b else a.held q }

abbrev pub note : Call → Lifecycle → Lifecycle
note c a = record a { calls = a.calls ++ c ∷ [] }

unfoldable pub make : Faults → Part → Lifecycle → Lifecycle × Ended
make f p a = attempt (f.making p) a (set_held p true a)

unfoldable pub launch : Faults → Part → Lifecycle → Lifecycle × Ended
launch f p a =
    if a.held p then attempt (f.starting p) a (note (Call.started p) a) else (a, Ended.returned)

-- A part is let go only after its stop has returned.
unfoldable pub release : Faults → Part → Lifecycle → Lifecycle × Ended
release f p a =
    if a.held p
    then attempt (f.stopping p) a (set_held p false (note (Call.stopped p) a))
    else (a, Ended.returned)

-- A part that is not stopped, only let go.
unfoldable pub drop : Part → Lifecycle → Lifecycle × Ended
drop p a = (set_held p false a, Ended.returned)

unfoldable pub cleanup : Faults → Lifecycle → Lifecycle × Ended
unfolding release drop
cleanup f a =
    release f Part.worker_pool a
    >> release f Part.memory_monitor
    >> release f Part.process_monitor
    >> release f Part.mfc_ui_monitor
    >> release f Part.state_monitor
    >> release f Part.mfc_controller
    >> release f Part.slot_manager
    >> drop Part.test_executor
    >> drop Part.memory_manager
    >> release f Part.ws_client

abbrev pub set_event : Lifecycle → Lifecycle
set_event a = record a {
  shutdown_event = elim a.shutdown_event [ none ↦ none | some _ ↦ some true ];
}

unfoldable pub stop : Faults → Lifecycle → Lifecycle × Ended
unfolding launch
stop f a =
    let b = record a { is_running = false } in
    (if a.held Part.ws_client
      then attempt (f.stopping Part.ws_client) b (note (Call.stopped Part.ws_client) b)
      else (b, Ended.returned))
    >> λ c. (set_event c, Ended.returned)

abbrev pub goes_on : Lifecycle → Bool
goes_on a = a.is_running && not (elim a.shutdown_event [ none ↦ false | some b ↦ b ])

-- The turns of the loop. An exception in a turn ends the loop and goes no further.
unfoldable pub main_turns : Faults → List Turn → Lifecycle → Lifecycle × Ended
unfolding stop
main_turns f [] a = (a, if goes_on a then Ended.cancelled else Ended.returned)
main_turns f (Turn.quiet ∷ ts) a =
    let rest = main_turns f ts a in if goes_on a then rest else (a, Ended.returned)
main_turns f (Turn.stop_called ∷ ts) a =
    let rest = main_turns f ts (stop f a).0 in if goes_on a then rest else (a, Ended.returned)
main_turns f (Turn.failing ∷ ts) a = (a, Ended.returned)

-- The client's task is waited for after the loop, and an exception of it leaves the loop.
unfoldable pub main_loop : Faults → List Turn → Lifecycle → Lifecycle × Ended
unfolding main_turns
main_loop f turns a =
    if a.held Part.ws_client
    then (let r = main_turns f turns a in (r.0, if f.task_failed then Ended.raised else r.1))
    else (a, Ended.returned)

unfoldable pub prepare : Faults → Lifecycle → Lifecycle × Ended
unfolding make launch
prepare f a =
    make f Part.memory_manager (record a { is_running = true; shutdown_event = some false })
    >> make f Part.memory_monitor
    >> make f Part.test_executor
    >> make f Part.mfc_controller
    >> make f Part.slot_manager
    >> make f Part.process_monitor
    >> make f Part.mfc_ui_monitor
    >> make f Part.ws_client
    >> make f Part.worker_pool
    >> launch f Part.worker_pool

unfoldable pub body : Faults → List Turn → Lifecycle → Lifecycle × Ended
unfolding launch main_loop
body f turns a =
    launch f Part.memory_monitor a
    >> launch f Part.process_monitor
    >> launch f Part.mfc_ui_monitor
    >> main_loop f turns

-- A cancellation of the body is caught, an exception goes on after the clean-up.
abbrev pub caught : Ended → Ended
caught Ended.returned = Ended.returned
caught Ended.raised = Ended.raised
caught Ended.cancelled = Ended.returned

unfoldable pub start : Faults → List Turn → Lifecycle → Lifecycle × Ended
unfolding prepare body cleanup
start f turns a =
    prepare f a >> λ b. (let r = body f turns b in cleanup f r.0 >> λ c. (c, caught r.1))
