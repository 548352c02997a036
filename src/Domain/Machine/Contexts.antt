-- ===== src/Domain/Machine/Contexts.antt =====
-- What `SlotStateMachine.trigger` does to the slot's context.
use mathlib.Core.List.{foldl-append}
use aio_ss_usb_test_agent.Prelude.{
  suc, ◌+◌, ◌≡◌, refl, true, false, Option, none, some, String, str_eq, List, [], ◌∷◌, ◌++◌, arith,
  inl, inr, Bool-cases, append_assoc,
}
use aio_ss_usb_test_agent.Domain.State.{SlotEvent}
use aio_ss_usb_test_agent.Domain.Context
use aio_ss_usb_test_agent.Domain.Context.{
  SlotContext, Field, Time, new_context, update, assign_all, assign,
}
use aio_ss_usb_test_agent.Domain.Machine.{
  SlotStateMachine, Notice, trigger, moved, change_context, update_if_any, put_context,
  error_fields, in_terminal, is_clearing, is_start,
}

-- The context of a slot whose test starts again after it was over.
abbrev pub restarted : Time → SlotContext → SlotContext
restarted now c = record c {
  error_message = none;
  error_count = 0;
  retry_count = 0;
  current_loop = 0;
  started_at = some now;
  updated_at = now;
}

-- The context `c` of a slot, with an error more than the context `d` had.
abbrev pub failed : Time → String → SlotContext → SlotContext → SlotContext
failed now text d c = record c {
  error_message = some text;
  error_count = d.error_count + 1;
  updated_at = now;
}

abbrev last_fields : Time → List Field
last_fields now =
    Field.started_at (some now)
    ∷ Field.error_message none
    ∷ Field.error_count 0
    ∷ Field.retry_count 0
    ∷ Field.current_loop 0
    ∷ []

-- The fields that an error message sets are set again after it.
update_last :
    (now : Time) (c d : SlotContext) (fs : List Field) (msg : Option String)
    → update now (fs ++ (error_fields msg d ++ last_fields now)) c ≡ restarted now (assign_all c fs)
unfolding update error_fields
update_last now c d fs none = rw (foldl-append)
update_last now c d fs (some m) = elim (Bool-cases (str_eq m "")) [
  | inl e ↦ rw (e, foldl-append)
  | inr e ↦ rw (e, foldl-append)
]

ends :
    (now : Time) (fs : List Field) (g : Field) (gs : List Field) (m : SlotStateMachine)
    → update_if_any now (fs ++ g ∷ gs) m ≡ put_context (update now (fs ++ g ∷ gs) m.context) m
ends now [] g gs m = refl
ends now (f ∷ fs) g gs m = refl

update_if_any_last :
    (now : Time) (fs : List Field) (msg : Option String) (d : SlotContext) (m : SlotStateMachine)
    → (update_if_any now (fs ++ (error_fields msg d ++ last_fields now)) m).context
      ≡ restarted now (assign_all m.context fs)
unfolding put_context
update_if_any_last now fs msg d m =
    rw (← append_assoc fs (error_fields msg d), ends now (fs ++ error_fields msg d))
      (rw append_assoc (update_last now m.context d fs msg))

module _ (fs : List Field) (msg : Option String) (now : Time) (m m' : SlotStateMachine)
    (ns : List Notice) where
  -- START_TEST from COMPLETED, FAILED or ERROR: whatever the update and the message say, the errors, the retries and
  -- the loop count start afresh, and all else, the number of batches included, is as the update
  -- leaves it.
  pub context-restart :
      in_terminal m.state ≡ true
      → trigger SlotEvent.start_test fs msg now m ≡ moved m' ns
      → m'.context ≡ restarted now (assign_all m.context fs)
  unfolding trigger change_context
  context-restart h e = ground (arith, update_if_any_last now fs msg m.context m)

module _ (fs : List Field) (msg : Option String) (now : Time) (m m' : SlotStateMachine)
    (ns : List Notice) where
  -- RESET and STOPPED give the slot a new context with every field but the slot's index at its
  -- default: the update and the message of the call are dropped.
  pub context-clear :
      (e : SlotEvent)
      → is_clearing e ≡ true
      → trigger e fs msg now m ≡ moved m' ns
      → (m'.context ≡ new_context m.context.slot_idx now) × (m'.context_ref ≡ suc m.context_ref)
  unfolding trigger change_context Context.reset
  context-clear e h t = ground arith

error_last :
    (now : Time) (fs : List Field) (text : String) (m : SlotStateMachine)
    → str_eq text "" ≡ false
    → update_if_any now (fs ++ (error_fields (some text) m.context ++ [])) m
      ≡ put_context (failed now text m.context (assign_all m.context fs)) m
unfolding error_fields update
error_last now fs text m h = rw h (rw (ends now fs, foldl-append))

module _ (now : Time) (m m' : SlotStateMachine) (ns : List Notice) (e : SlotEvent) where
  -- An event that neither starts nor clears, with a message, keeps the message and counts one
  -- error more than the context had before the call, over what the update sets.
  pub context-error :
      (fs : List Field) (text : String)
      → is_start e ≡ false
      → is_clearing e ≡ false
      → str_eq text "" ≡ false
      → trigger e fs (some text) now m ≡ moved m' ns
      → m'.context ≡ failed now text m.context (assign_all m.context fs)
  unfolding trigger change_context
  context-error fs text s c h t = ground (arith, error_last now fs text m)

  -- Without update and message such an event leaves the context's object in place.
  pub context-keep :
      is_start e ≡ false
      → is_clearing e ≡ false
      → trigger e [] none now m ≡ moved m' ns
      → (m'.context ≡ m.context) × (m'.context_ref ≡ m.context_ref)
  unfolding trigger change_context error_fields
  context-keep s c t = ground arith
