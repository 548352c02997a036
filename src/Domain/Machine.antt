-- ===== src/Domain/Machine.antt =====
-- domain/state_machine.py: `SlotStateMachine`. One reading of the clock, `now`, serves a whole call.
pub mod Moves
pub mod History
pub mod Contexts
pub mod Restart
mod Examples
use aio_ss_usb_test_agent.Prelude.{
  ℕ, suc, ◌+◌, ltb, if◌then◌else◌, Bool, true, false, not, ◌||◌, Option, none, some, String, str_eq,
  List, [], ◌∷◌, ◌++◌, length, last_n, map, is_some,
}
use aio_ss_usb_test_agent.Prelude.Dict.{Dict, beq}
use aio_ss_usb_test_agent.Domain.State.{SlotState, SlotEvent, slot_state_eq}
use aio_ss_usb_test_agent.Domain.Context
use aio_ss_usb_test_agent.Domain.Context.{SlotContext, Field, Time, new_context, update}
use aio_ss_usb_test_agent.Domain.Transitions.{Key, next_state, transition_map}

pub record Entry : Type 0 where
  pub at : Time
  pub old_state : SlotState
  pub event : SlotEvent
  pub new_state : SlotState

-- `context_ref` is the identity of the object that `self._context` holds: a number that changes
-- whenever another object is put there. `has_callback` says whether `_on_state_change` is set.
pub record SlotStateMachine : Type 0 where
  pub slot_idx : ℕ
  pub state : SlotState
  pub context : SlotContext
  pub context_ref : ℕ
  pub history : List Entry
  pub has_callback : Bool

unfoldable pub new_machine : ℕ → SlotState → Bool → Time → SlotStateMachine
unfolding new_context
new_machine slot_idx initial_state has_callback now = record {
  slot_idx = slot_idx;
  state = initial_state;
  context = new_context slot_idx now;
  context_ref = 0;
  history = [];
  has_callback = has_callback;
}

unfoldable pub can_transition : SlotStateMachine → SlotEvent → Bool
can_transition m event = is_some (next_state m.state event)

abbrev pub is_start : SlotEvent → Bool
is_start SlotEvent.start_test = true
is_start _ = false

abbrev pub is_clearing : SlotEvent → Bool
is_clearing SlotEvent.reset = true
is_clearing SlotEvent.stopped = true
is_clearing _ = false

abbrev pub in_terminal : SlotState → Bool
in_terminal SlotState.completed = true
in_terminal SlotState.failed = true
in_terminal SlotState.error = true
in_terminal _ = false

-- An empty message counts as none.
error_fields : Option String → SlotContext → List Field
error_fields none c = []
error_fields (some m) c =
    if str_eq m ""
    then []
    else Field.error_message (some m) ∷ Field.error_count (c.error_count + 1) ∷ []

restart_fields : SlotState → List Field
restart_fields old_state =
    if in_terminal old_state
    then Field.error_message none
      ∷ Field.error_count 0
      ∷ Field.retry_count 0
      ∷ Field.current_loop 0
      ∷ []
    else []

start_fields : SlotEvent → SlotState → Time → List Field
unfolding restart_fields
start_fields event old_state now =
    if is_start event then Field.started_at (some now) ∷ restart_fields old_state else []

-- `self._context = ...`
put_context : SlotContext → SlotStateMachine → SlotStateMachine
put_context c m = record m { context = c; context_ref = suc m.context_ref }

abbrev update_if_any : Time → List Field → SlotStateMachine → SlotStateMachine
update_if_any now [] m = m
update_if_any now (f ∷ fs) m = put_context (update now (f ∷ fs) m.context) m

unfoldable pub change_context :
    SlotEvent → List Field → Option String → Time → SlotStateMachine → SlotStateMachine
unfolding error_fields start_fields put_context update
change_context event context_update error_message now m =
    if is_clearing event
    then put_context (Context.reset now m.context) m
    else update_if_any now
        (context_update ++ (error_fields error_message m.context ++ start_fields event m.state now))
        m

record_transition : Entry → List Entry → List Entry
record_transition e history =
    let longer = history ++ e ∷ [] in if ltb 100 (length longer) then last_n 50 longer else longer

-- The events that lead out of a state, in the order of the table's keys.
unfoldable pub events_from : SlotState → Dict Key SlotState → List SlotEvent
events_from state [] = []
events_from state (((s, e), t) ∷ d) =
    let rest = events_from state d in if beq s state then e ∷ rest else rest

unfoldable pub get_valid_events : SlotStateMachine → List SlotEvent
unfolding events_from transition_map
get_valid_events m = events_from m.state transition_map

-- A call of the callback, whose exceptions are caught: slot, old state and new state.
pub record Notice : Type 0 where
  pub slot_idx : ℕ
  pub old_state : SlotState
  pub new_state : SlotState

-- What `trigger` does: it raises `InvalidTransitionError`, or returns and may have called back.
pub data Outcome : Type 0 where
  invalid : SlotState → SlotEvent → ℕ → Outcome
  moved : SlotStateMachine → List Notice → Outcome

unfoldable pub move_to :
    SlotState → SlotEvent → List Field → Option String → Time → SlotStateMachine → SlotStateMachine
unfolding change_context record_transition
move_to new_state event context_update error_message now m =
    let entry : Entry = record {
      at = now;
      old_state = m.state;
      event = event;
      new_state = new_state;
    } in
    record (change_context event context_update error_message now m) {
      state = new_state;
      history = record_transition entry m.history;
    }

unfoldable pub notices : SlotState → SlotStateMachine → List Notice
notices new_state m =
    if m.has_callback
    then record { slot_idx = m.slot_idx; old_state = m.state; new_state = new_state } ∷ []
    else []

unfoldable pub trigger : SlotEvent → List Field → Option String → Time → SlotStateMachine → Outcome
unfolding move_to notices
trigger event context_update error_message now m = elim (next_state m.state event) [
  | none ↦ invalid m.state event m.slot_idx
  | some new_state ↦
      moved (move_to new_state event context_update error_message now m) (notices new_state m)
]

-- The transition rules are bypassed, the history is not cut and no callback is made.
unfoldable pub force_state : SlotState → Time → SlotStateMachine → SlotStateMachine
force_state state now m =
    let entry : Entry = record {
      at = now;
      old_state = m.state;
      event = SlotEvent.reset;
      new_state = state;
    } in
    record m { state = state; history = m.history ++ entry ∷ [] }

unfoldable pub is_idle : SlotStateMachine → Bool
is_idle m = beq m.state SlotState.idle

unfoldable pub is_busy : SlotStateMachine → Bool
is_busy m = not (beq m.state SlotState.idle || in_terminal m.state)

unfoldable pub is_running : SlotStateMachine → Bool
is_running m = beq m.state SlotState.running

unfoldable pub is_terminal : SlotStateMachine → Bool
is_terminal m = in_terminal m.state

-- One call from outside: an event, or a forced state.
pub data Call : Type 0 where
  triggers : SlotEvent → List Field → Option String → Time → Call
  forces : SlotState → Time → Call

-- A call that raises leaves the machine as it was.
abbrev pub after : SlotStateMachine → Outcome → SlotStateMachine
after m (invalid s e i) = m
after m (moved m' ns) = m'

unfoldable pub call : SlotStateMachine → Call → SlotStateMachine
call m (triggers event fields message now) = after m (trigger event fields message now m)
call m (forces state now) = force_state state now m

unfoldable pub run_calls : SlotStateMachine → List Call → SlotStateMachine
run_calls m [] = m
run_calls m (c ∷ cs) = run_calls (call m c) cs
