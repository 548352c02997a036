-- ===== src/Infrastructure/StateStore/Refinement.antt =====
-- What the store promises: each field of a slot is what was last written to it.
use aio_ss_usb_test_agent.Prelude.{
  ℕ, zero, suc, ◌<◌, ◌&&◌, ◌≡◌, refl, ap, ◌∙◌, ltb, ◌==◌, if◌then◌else◌, Option, none, some, List,
  [], ◌∷◌, arith,
}
use aio_ss_usb_test_agent.Prelude.Dict.{Dict, get, get-put, nat_eq}
use aio_ss_usb_test_agent.Domain.Context.{Time}
use aio_ss_usb_test_agent.Infrastructure.StateStore.{
  InMemoryStateStore, StoredState, Update, Call, sets, resets, resets_all, new_state, new_store,
  fill, change, current_or_new, get_slot_state, set_slot_state, reset_slot, reset_all, run_call,
  run_calls,
}

abbrev View : Type 0
View = ℕ → Option StoredState

-- The effect of a call on the view of a store of n slots.
abbrev viewed : ℕ → View → Call → View
viewed n v (sets i u now) j =
    if ltb i n && (i == j) then some (change u now (current_or_new i now (v i))) else v j
viewed n v (resets i now) j = if i == j then some (new_state i now) else v j
viewed n v (resets_all now) j = if ltb j n then some (new_state j now) else v j

get-fill :
    (n : ℕ) (now : Time) (d : Dict ℕ StoredState) (j : ℕ)
    → get (fill n now d) j ≡ (if ltb j n then some (new_state j now) else get d j)
unfolding fill
get-fill zero now d j = ground arith
get-fill (suc n) now d j =
    ground (arith, get-put (fill n now d) n j (new_state n now), get-fill n now d j)

run_call-viewed :
    (s : InMemoryStateStore) (c : Call) (j : ℕ)
    → get_slot_state (run_call s c) j ≡ viewed s.max_slots (get_slot_state s) c j
unfolding get_slot_state run_call set_slot_state reset_slot reset_all
run_call-viewed s (sets i u now) j =
    ground (arith, get-put s.states i j (change u now (current_or_new i now (get s.states i))))
run_call-viewed s (resets i now) j = ground (arith, get-put s.states i j (new_state i now))
run_call-viewed s (resets_all now) j = get-fill s.max_slots now s.states j

max_slots-run_call : (s : InMemoryStateStore) (c : Call) → (run_call s c).max_slots ≡ s.max_slots
unfolding run_call set_slot_state reset_slot reset_all
max_slots-run_call s (sets i u now) = ground arith
max_slots-run_call s (resets i now) = refl
max_slots-run_call s (resets_all now) = refl

new_store_lem :
    (n : ℕ) (now : Time) (j : ℕ)
    → get_slot_state (new_store n now) j ≡ (if ltb j n then some (new_state j now) else none)
unfolding get_slot_state new_store get
new_store_lem n now j = get-fill n now [] j

-- What a call writes to a field of slot i in a store of n slots: the value that an update has for it, or
-- the field's first value by a reset.
abbrev pub written {ℓ} : {A : Type ℓ} → (Update → Option A) → A → ℕ → ℕ → Call → Option A
written field first n i (sets j u now) = if j == i then field u else none
written field first n i (resets j now) = if j == i then some first else none
written field first n i (resets_all now) = if ltb i n then some first else none

-- Every update and every reset of slot i writes the time.
abbrev pub written_time : ℕ → ℕ → Call → Option Time
written_time n i (sets j u now) = if j == i then some now else none
written_time n i (resets j now) = if j == i then some now else none
written_time n i (resets_all now) = if ltb i n then some now else none

-- What the last call that writes has written, or the old value if none does.
abbrev pub last_written {ℓ} : {A : Type ℓ} → (Call → Option A) → A → List Call → A
last_written write old [] = old
last_written write old (c ∷ cs) =
    last_written write (elim (write c) [ none ↦ old | some new ↦ new ]) cs

-- What the calls make of the state of slot i.
abbrev pub specified : ℕ → ℕ → StoredState → List Call → StoredState
specified n i s cs = record {
  slot_idx = i;
  status = last_written (written (λ u. u.status) "idle" n i) s.status cs;
  progress = last_written (written (λ u. u.progress) 0 n i) s.progress cs;
  current_phase = last_written (written (λ u. u.current_phase) none n i) s.current_phase cs;
  test_id = last_written (written (λ u. u.test_id) none n i) s.test_id cs;
  error_message = last_written (written (λ u. u.error_message) none n i) s.error_message cs;
  last_updated = last_written (written_time n i) s.last_updated cs;
}

-- The state of a slot that nothing was written to.
abbrev pub first_state : ℕ → Time → StoredState
first_state i now = record {
  slot_idx = i;
  status = "idle";
  progress = 0;
  current_phase = none;
  test_id = none;
  error_message = none;
  last_updated = now;
}

-- The slot has the state.
abbrev HasState : InMemoryStateStore → ℕ → StoredState → Type 0
HasState s i state = get_slot_state s i ≡ some state

written-viewed :
    (n : ℕ) (v : View) (c : Call) (i : ℕ) (state : StoredState)
    → i < n
    → state.slot_idx ≡ i
    → v i ≡ some state
    → viewed n v c i ≡ some (specified n i state (c ∷ []))
written-viewed n v (sets j u now) i state h k e = ground (arith, h, k, e)
written-viewed n v (resets j now) i state h k e = ground (arith, k, e)
written-viewed n v (resets_all now) i state h k e = ground (arith, h, k, e)

run_calls-HasState :
    (n : ℕ) (s : InMemoryStateStore) (cs : List Call) (i : ℕ) (state : StoredState)
    → s.max_slots ≡ n
    → i < n
    → state.slot_idx ≡ i
    → HasState s i state
    → HasState (run_calls s cs) i (specified n i state cs)
unfolding run_calls
run_calls-HasState n s [] i state same h k e = ground (arith, k, e)
run_calls-HasState n s (c ∷ cs) i state same h k e =
    run_calls-HasState n (run_call s c) cs i (specified n i state (c ∷ []))
      (max_slots-run_call s c ∙ same) h refl
      (run_call-viewed s c i
        ∙ ap (λ m. viewed m (get_slot_state s) c i) same
        ∙ written-viewed n (get_slot_state s) c i state h k e)

-- After any calls on a new store, those that raise among them, each field of a slot has what the last
-- call that writes it has written: an update of this slot that has the field, or a reset of this slot or
-- of all, which write the field's first value. The time is that of the last update or reset of the slot,
-- whatever fields it has. A field that no call writes is as in the new store. It holds of the slots that
-- the store was made with.
pub run_calls-specified :
    (n : ℕ) (made : Time) (cs : List Call) (i : ℕ)
    → i < n
    → get_slot_state (run_calls (new_store n made) cs) i
      ≡ some (specified n i (first_state i made) cs)
unfolding new_store
run_calls-specified n made cs i h =
    run_calls-HasState n (new_store n made) cs i (first_state i made) refl h refl
      (new_store_lem n made i ∙ ground (arith, h))
