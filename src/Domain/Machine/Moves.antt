-- ===== src/Domain/Machine/Moves.antt =====
-- Where `SlotStateMachine.trigger` leads.
use aio_ss_usb_test_agent.Prelude.{
  ℕ, ◌≤◌, ◌≡◌, refl, ◌⊎◌, inl, inr, not, ◌||◌, Option, none, some, String, List, [], ◌∷◌, arith,
  length, is_some, suc, map, if◌then◌else◌, Option-cases,
}
use aio_ss_usb_test_agent.Prelude.Dict.{beq}
use aio_ss_usb_test_agent.Domain.State.{
  SlotState, SlotEvent, slot_state_eq, slot_event_eq, SlotState-discrete, SlotEvent-discrete,
}
use aio_ss_usb_test_agent.Domain.Context.{Field, Time}
use aio_ss_usb_test_agent.Domain.Transitions.{edge, next_state-eq-edge, transition_map}
use aio_ss_usb_test_agent.Domain.Machine.{
  events_from, get_valid_events, SlotStateMachine, Notice, invalid, moved, trigger, move_to,
  notices, change_context, put_context, can_transition, is_busy, Call, triggers, after, call,
  run_calls,
}

module _ (e : SlotEvent) (fs : List Field) (msg : Option String) (now : Time)
    (m : SlotStateMachine) where
  -- A machine without an edge for the event raises, and one with an edge goes to its end.
  pub trigger_invalid :
      edge m.state e ≡ none → trigger e fs msg now m ≡ invalid m.state e m.slot_idx
  unfolding trigger
  trigger_invalid h = ground (arith, next_state-eq-edge m.state e)

  pub trigger_moved :
      (t : SlotState)
      → edge m.state e ≡ some t
      → trigger e fs msg now m ≡ moved (move_to t e fs msg now m) (notices t m)
  unfolding trigger
  trigger_moved t h = ground (arith, next_state-eq-edge m.state e)

  pub moved_edge :
      (m' : SlotStateMachine) (ns : List Notice)
      → trigger e fs msg now m ≡ moved m' ns
      → edge m.state e ≡ some m'.state
  unfolding trigger
  moved_edge m' ns h = ground (arith, next_state-eq-edge m.state e)

  pub state-after :
      (t : SlotState) → edge m.state e ≡ some t → (after m (trigger e fs msg now m)).state ≡ t
  unfolding trigger
  state-after t h = ground (arith, next_state-eq-edge m.state e)

  -- What holds if nothing happens, and after each move that the table allows, holds after the call.
  pub after_cases {ℓ} :
      (P : SlotStateMachine → Type ℓ)
      → P m
      → ((t : SlotState) → edge m.state e ≡ some t → P (move_to t e fs msg now m))
      → P (after m (trigger e fs msg now m))
  after_cases P stays moves = elim (Option-cases (edge m.state e)) [
    | inl stuck ↦ rw (trigger_invalid stuck) stays
    | inr (t, step) ↦ rw (trigger_moved t step) (moves t step)
  ]

-- A move keeps the slot's index and callback.
pub move_keeps :
    (t : SlotState) (e : SlotEvent) (msg : Option String) (now : Time) (m : SlotStateMachine)
    → let m' = move_to t e [] msg now m in
      (m'.slot_idx ≡ m.slot_idx) × (m'.has_callback ≡ m.has_callback) × (m'.state ≡ t)
unfolding move_to change_context put_context
move_keeps t e msg now m = ground arith

-- START_TEST is accepted exactly when the slot is not busy or is READY.
pub start_when_free :
    (m : SlotStateMachine)
    → can_transition m SlotEvent.start_test ≡ (not (is_busy m) || beq m.state SlotState.ready)
unfolding can_transition is_busy edge SlotState-discrete
start_when_free m = ground (arith, next_state-eq-edge m.state SlotEvent.start_test)

-- How often an event is in a list.
abbrev pub count : SlotEvent → List SlotEvent → ℕ
count e [] = 0
count e (f ∷ fs) = let rest = count e fs in if beq f e then suc rest else rest

-- The events that lead out of a state, read off the table.
abbrev events_out : SlotState → List SlotEvent
events_out SlotState.idle = SlotEvent.connect ∷ SlotEvent.start_test ∷ SlotEvent.reset ∷ []
events_out SlotState.connecting =
    SlotEvent.connected ∷ SlotEvent.connection_failed ∷ SlotEvent.disconnected ∷ []
events_out SlotState.ready = SlotEvent.start_test ∷ SlotEvent.disconnected ∷ SlotEvent.reset ∷ []
events_out SlotState.preparing =
    SlotEvent.configure ∷ SlotEvent.fail ∷ SlotEvent.error ∷ SlotEvent.stop ∷ []
events_out SlotState.configuring =
    SlotEvent.configured ∷ SlotEvent.run ∷ SlotEvent.fail ∷ SlotEvent.error ∷ SlotEvent.stop ∷ []
events_out SlotState.running =
    SlotEvent.pause ∷ SlotEvent.stop ∷ SlotEvent.complete ∷ SlotEvent.fail ∷ SlotEvent.error
    ∷ SlotEvent.disconnected ∷ SlotEvent.batch_complete ∷ []
events_out SlotState.waiting =
    SlotEvent.batch_next ∷ SlotEvent.all_batches_done ∷ SlotEvent.stop ∷ SlotEvent.error
    ∷ SlotEvent.fail ∷ []
events_out SlotState.paused = SlotEvent.resume ∷ SlotEvent.stop ∷ SlotEvent.error ∷ []
events_out SlotState.stopping = SlotEvent.stopped ∷ SlotEvent.error ∷ []
events_out SlotState.completed = SlotEvent.reset ∷ SlotEvent.start_test ∷ []
events_out SlotState.failed = SlotEvent.reset ∷ SlotEvent.retry ∷ SlotEvent.start_test ∷ []
events_out SlotState.error = SlotEvent.reset ∷ SlotEvent.retry ∷ SlotEvent.start_test ∷ []

events_from_lem : (s : SlotState) → events_from s transition_map ≡ events_out s
unfolding events_from transition_map
events_from_lem SlotState.idle = refl
events_from_lem SlotState.connecting = refl
events_from_lem SlotState.ready = refl
events_from_lem SlotState.preparing = refl
events_from_lem SlotState.configuring = refl
events_from_lem SlotState.running = refl
events_from_lem SlotState.waiting = refl
events_from_lem SlotState.paused = refl
events_from_lem SlotState.stopping = refl
events_from_lem SlotState.completed = refl
events_from_lem SlotState.failed = refl
events_from_lem SlotState.error = refl

count_out :
    (s : SlotState) (e : SlotEvent) → count e (events_out s) ≡ (if is_some (edge s e) then 1 else 0)
unfolding edge SlotEvent-discrete
count_out SlotState.idle SlotEvent.connect = refl
count_out SlotState.idle _ = refl
count_out SlotState.connecting SlotEvent.connect = refl
count_out SlotState.connecting _ = refl
count_out SlotState.ready SlotEvent.connect = refl
count_out SlotState.ready _ = refl
count_out SlotState.preparing SlotEvent.connect = refl
count_out SlotState.preparing _ = refl
count_out SlotState.configuring SlotEvent.connect = refl
count_out SlotState.configuring _ = refl
count_out SlotState.running SlotEvent.connect = refl
count_out SlotState.running _ = refl
count_out SlotState.waiting SlotEvent.connect = refl
count_out SlotState.waiting _ = refl
count_out SlotState.paused SlotEvent.connect = refl
count_out SlotState.paused _ = refl
count_out SlotState.stopping SlotEvent.connect = refl
count_out SlotState.stopping _ = refl
count_out SlotState.completed SlotEvent.connect = refl
count_out SlotState.completed _ = refl
count_out SlotState.failed SlotEvent.connect = refl
count_out SlotState.failed _ = refl
count_out SlotState.error SlotEvent.connect = refl
count_out SlotState.error _ = refl

-- `get_valid_events` lists an event once if `can_transition` accepts it, and not at all otherwise.
pub count-get_valid_events :
    (m : SlotStateMachine) (e : SlotEvent)
    → count e (get_valid_events m) ≡ (if can_transition m e then 1 else 0)
unfolding get_valid_events can_transition
count-get_valid_events m e =
    rw (events_from_lem m.state, next_state-eq-edge m.state e) (count_out m.state e)

-- How a slot can come to a state, given the state before and the event.
abbrev pub IsEntry : SlotState → SlotState → SlotEvent → Type 0
IsEntry SlotState.running s e =
    ((s ≡ SlotState.configuring) × (e ≡ SlotEvent.run))
    ⊎ ((s ≡ SlotState.paused) × (e ≡ SlotEvent.resume))
IsEntry SlotState.completed s e =
    ((s ≡ SlotState.running) × (e ≡ SlotEvent.complete))
    ⊎ ((s ≡ SlotState.waiting) × (e ≡ SlotEvent.all_batches_done))
IsEntry SlotState.waiting s e = (s ≡ SlotState.running) × (e ≡ SlotEvent.batch_complete)
IsEntry _ s e = Unit {0}

-- `trigger`, when it does not raise, brings a slot to RUNNING only by RUN from CONFIGURING or RESUME
-- from PAUSED, to COMPLETED only by COMPLETE from RUNNING or ALL_BATCHES_DONE from WAITING, and to
-- WAITING only by BATCH_COMPLETE from RUNNING. It says nothing of `force_state`, which obeys no rule.
pub trigger-IsEntry :
    (m m' : SlotStateMachine) (e : SlotEvent) (fs : List Field) (msg : Option String) (now : Time)
    (ns : List Notice)
    → trigger e fs msg now m ≡ moved m' ns
    → IsEntry m'.state m.state e
unfolding edge
trigger-IsEntry m m' e fs msg now ns h = ground (arith, moved_edge e fs msg now m m' ns h)

-- The events that lead back to IDLE.
abbrev way_back : SlotState → List SlotEvent
way_back SlotState.idle = []
way_back SlotState.connecting = SlotEvent.disconnected ∷ []
way_back SlotState.ready = SlotEvent.reset ∷ []
way_back SlotState.stopping = SlotEvent.stopped ∷ []
way_back SlotState.completed = SlotEvent.reset ∷ []
way_back SlotState.failed = SlotEvent.reset ∷ []
way_back SlotState.error = SlotEvent.reset ∷ []
way_back _ = SlotEvent.stop ∷ SlotEvent.stopped ∷ []

abbrev pub plain : Time → List SlotEvent → List Call
plain now = map (λ e. triggers e [] none now)

module _ (now : Time) where
  one_step :
      (m : SlotStateMachine) (e : SlotEvent) (t : SlotState)
      → edge m.state e ≡ some t
      → (run_calls m (plain now (e ∷ []))).state ≡ t
  unfolding run_calls call
  one_step m e t h = state-after e [] none now m t h

  two_steps :
      (m : SlotStateMachine) (e f : SlotEvent) (t u : SlotState)
      → edge m.state e ≡ some t
      → edge t f ≡ some u
      → (run_calls m (plain now (e ∷ f ∷ []))).state ≡ u
  unfolding run_calls call
  two_steps m e f t u h k =
      state-after f [] none now (after m (trigger e [] none now m)) u
        (rw (state-after e [] none now m t h) k)

  via_stop :
      (m : SlotStateMachine)
      → edge m.state SlotEvent.stop ≡ some SlotState.stopping
      → (run_calls m (plain now (SlotEvent.stop ∷ SlotEvent.stopped ∷ []))).state ≡ SlotState.idle
  unfolding edge
  via_stop m h =
      two_steps m SlotEvent.stop SlotEvent.stopped SlotState.stopping SlotState.idle h refl

  recovers_from :
      (s : SlotState) (m : SlotStateMachine)
      → m.state ≡ s
      → (run_calls m (plain now (way_back s))).state ≡ SlotState.idle
  unfolding run_calls edge
  recovers_from SlotState.idle m h = h
  recovers_from SlotState.connecting m h = one_step m SlotEvent.disconnected SlotState.idle (rw h)
  recovers_from SlotState.ready m h = one_step m SlotEvent.reset SlotState.idle (rw h)
  recovers_from SlotState.preparing m h = via_stop m (rw h)
  recovers_from SlotState.configuring m h = via_stop m (rw h)
  recovers_from SlotState.running m h = via_stop m (rw h)
  recovers_from SlotState.waiting m h = via_stop m (rw h)
  recovers_from SlotState.paused m h = via_stop m (rw h)
  recovers_from SlotState.stopping m h = one_step m SlotEvent.stopped SlotState.idle (rw h)
  recovers_from SlotState.completed m h = one_step m SlotEvent.reset SlotState.idle (rw h)
  recovers_from SlotState.failed m h = one_step m SlotEvent.reset SlotState.idle (rw h)
  recovers_from SlotState.error m h = one_step m SlotEvent.reset SlotState.idle (rw h)

way_back_short : (s : SlotState) → length (way_back s) ≤ 2
way_back_short s = ground arith

-- From every state at most two events, none of them forced, bring the slot to IDLE.
pub recovers :
    (m : SlotStateMachine) (now : Time)
    → (es : List SlotEvent) × (length es ≤ 2)
      × ((run_calls m (plain now es)).state ≡ SlotState.idle)
recovers m now = (way_back m.state, way_back_short m.state, recovers_from now m.state m refl)
