-- ===== src/Domain/Manager/Slots.antt =====
-- What the manager does to its slots.
use aio_ss_usb_test_agent.Prelude.{
  ℕ, zero, suc, ◌+◌, ◌≡◌, refl, ltb, leb, ◌==◌, ◌&&◌, if◌then◌else◌, Bool, true, false, Option,
  none, some, String, List, [], ◌∷◌, map, arith, ap,
}
use aio_ss_usb_test_agent.Prelude.Dict.{Dict, get, put, get-put, nat_eq}
use aio_ss_usb_test_agent.Domain.State.{SlotState, SlotEvent, SlotState-discrete, slot_state_eq}
use aio_ss_usb_test_agent.Domain.Context.{Field, Time}
use aio_ss_usb_test_agent.Domain.Machine.{
  SlotStateMachine, Outcome, invalid, moved, new_machine, trigger, force_state, is_busy, is_idle,
  is_running,
}
use aio_ss_usb_test_agent.Domain.Manager.{
  SlotStateMachineManager, add_slots, new_manager, get_slot, Reply, key_error, refused, done, store,
  trigger_slot, select, get_busy_slots, get_running_slots, get_idle_slots, reset_machine, reset_all,
}

get-add_slots :
    (left from : ℕ) (callback : Bool) (now : Time) (d : Dict ℕ SlotStateMachine) (i : ℕ)
    → get (add_slots left from callback now d) i ≡ (
        if leb from i && ltb i (from + left)
        then some (new_machine i SlotState.idle callback now)
        else get d i)
unfolding add_slots
get-add_slots zero from callback now d i = ground arith
get-add_slots (suc left) from callback now d i = ground (
  arith,
  get-add_slots left (from + 1) callback now
      (put d from (new_machine from SlotState.idle callback now)) i,
  get-put d from i (new_machine from SlotState.idle callback now),
)

-- A new manager has an idle machine with the slot's own index at each index below `max_slots`, and
-- at no other.
pub get-new_manager :
    (max_slots : ℕ) (callback : Bool) (now : Time) (i : ℕ)
    → get_slot (new_manager max_slots callback now) i
      ≡ (if ltb i max_slots then some (new_machine i SlotState.idle callback now) else none)
unfolding new_manager get_slot get
get-new_manager max_slots callback now i =
    ground (arith, get-add_slots max_slots 0 callback now [] i)

-- What a reply of the manager is, given what the slot's own machine does.
abbrev pub OnlySlot : ℕ → SlotStateMachineManager → Outcome → Reply → Type 0
OnlySlot i g (invalid s e k) r = r ≡ refused s e k
OnlySlot i g (moved m ns) r =
    (g' : SlotStateMachineManager) × (r ≡ done g' m.state ns)
    × ((j : ℕ) → get_slot g' j ≡ (if i == j then some m else get_slot g j))

store-OnlySlot : (i : ℕ) (g : SlotStateMachineManager) (o : Outcome) → OnlySlot i g o (store g i o)
unfolding store get_slot
store-OnlySlot i g (invalid s e k) = refl
store-OnlySlot i g (moved m ns) =
    (record g { machines = put g.machines i m }, refl, λ j. get-put g.machines i j m)

module _ (i : ℕ) (e : SlotEvent) (fs : List Field) (msg : Option String) (now : Time)
    (g : SlotStateMachineManager) where
  -- At an index without a machine, `trigger` of the manager raises KeyError.
  pub trigger_slot_missing : get_slot g i ≡ none → trigger_slot i e fs msg now g ≡ key_error i
  unfolding trigger_slot
  trigger_slot_missing h = rw (h, trigger_slot)

  -- At an index with a machine, `trigger` of the manager is `trigger` of that machine: it raises if
  -- the machine does, and otherwise stores the machine, tells its notices and leaves every other slot
  -- as it was.
  pub trigger_slot-OnlySlot :
      (m : SlotStateMachine)
      → get_slot g i ≡ some m
      → OnlySlot i g (trigger e fs msg now m) (trigger_slot i e fs msg now g)
  unfolding trigger_slot
  trigger_slot-OnlySlot m h = rw (h, trigger_slot) (store-OnlySlot i g (trigger e fs msg now m))

-- The slots that the manager has.
abbrev pub keys : Dict ℕ SlotStateMachine → List ℕ
keys [] = []
keys ((i, m) ∷ d) = i ∷ keys d

reset_idle : (now : Time) (m : SlotStateMachine) → is_idle (reset_machine now m) ≡ true
unfolding reset_machine is_idle force_state SlotState-discrete
reset_idle now m = ground arith

reset_quiet :
    (now : Time) (m : SlotStateMachine)
    → (is_busy (reset_machine now m) ≡ false) × (is_running (reset_machine now m) ≡ false)
unfolding reset_machine is_idle is_busy is_running force_state SlotState-discrete
reset_quiet now m = ground arith

abbrev all_reset : Time → Dict ℕ SlotStateMachine → Dict ℕ SlotStateMachine
all_reset now = map (λ (item : ℕ × SlotStateMachine). (item.0, reset_machine now item.1))

select_none :
    (test : SlotStateMachine → Bool) (now : Time) (d : Dict ℕ SlotStateMachine)
    → ((m : SlotStateMachine) → test (reset_machine now m) ≡ false)
    → select test (all_reset now d) ≡ []
unfolding select
select_none test now [] h = refl
select_none test now ((i, m) ∷ d) h = rw (h m) (select_none test now d h)

select_idle : (now : Time) (d : Dict ℕ SlotStateMachine) → select is_idle (all_reset now d) ≡ keys d
unfolding select
select_idle now [] = refl
select_idle now ((i, m) ∷ d) = rw (reset_idle now m) (ap (λ is. i ∷ is) (select_idle now d))

-- After `reset_all` every slot is idle, and none is busy or running.
pub slots-reset_all :
    (now : Time) (g : SlotStateMachineManager)
    → (get_idle_slots (reset_all now g) ≡ keys g.machines)
      × (get_busy_slots (reset_all now g) ≡ [])
      × (get_running_slots (reset_all now g) ≡ [])
unfolding reset_all get_idle_slots get_busy_slots get_running_slots
slots-reset_all now g = (
  select_idle now g.machines,
  select_none is_busy now g.machines (λ m. (reset_quiet now m).0),
  select_none is_running now g.machines (λ m. (reset_quiet now m).1),
)
