-- ===== src/Controller/Windows/Connecting.antt =====
-- What `launch_and_connect` leaves, on all its ends.
use aio_ss_usb_test_agent.Prelude.{
  ℕ, ◌≡◌, refl, ap, ◌⊎◌, inl, inr, if◌then◌else◌, Bool, true, false, under_if, Option, none, some,
  is_some, List, [], ◌∷◌, arith,
}
use aio_ss_usb_test_agent.Prelude.Dict.{Dict, get, put, get-put, nat_eq}
use aio_ss_usb_test_agent.Infrastructure.ProcessManager.{
  Slots, SlotProcess, Launch, Termination, get_pid, pid_if_any, is_active, launch_for_slot,
  launch_exe_get_pid, store_launched, terminate_for_slot, truthy, active_process,
}
use aio_ss_usb_test_agent.Controller.Windows.{
  SlotWindow, WindowManager, Attempt, Connection, clear_connection, connect_loop, connect_to_pid,
  connect_window, connect_launched, launch_window, launch_and_connect, set_window,
}

abbrev pub HasUntitled : List Attempt → Type 0
HasUntitled [] = ⊥
HasUntitled (Attempt.no_app ∷ more) = HasUntitled more
HasUntitled (Attempt.no_window ∷ more) = HasUntitled more
HasUntitled (Attempt.untitled ∷ more) = Unit
HasUntitled (Attempt.found ∷ more) = HasUntitled more

-- The window of the process p.
abbrev pub IsWindowOf : ℕ → SlotWindow → Type 0
IsWindowOf p w = (w.has_app ≡ true) × ((w.has_window ≡ true) × (w.window_pid ≡ some p))

-- How the loop ends: U says that a pid was stored before a title could not be read.
abbrev Ended : Type 0 → ℕ → Bool × SlotWindow → Type 0
Ended U p (true, w) = IsWindowOf p w
Ended U p (false, w) = (w.window_pid ≡ none) ⊎ U

connect_loop-Ended :
    (U : Type 0) (p : ℕ) (attempts : List Attempt) (w : SlotWindow)
    → (HasUntitled attempts → U)
    → (w.window_pid ≡ none) ⊎ U
    → Ended U p (connect_loop p attempts w)
connect_loop-Ended U p [] w u h = h
connect_loop-Ended U p (Attempt.no_app ∷ more) w u h = connect_loop-Ended U p more w u h
connect_loop-Ended U p (Attempt.no_window ∷ more) w u h =
    connect_loop-Ended U p more (record w { has_app = true; has_window = true }) u h
connect_loop-Ended U p (Attempt.untitled ∷ more) w u h =
    connect_loop-Ended U p more
      (record w { has_app = true; has_window = true; window_pid = some p }) (λ _. u tt) (inr (u tt))
connect_loop-Ended U p (Attempt.found ∷ more) w u h = (refl, (refl, refl))

connect_to_pid-Ended :
    (p : ℕ) (attempts : List Attempt) (w : SlotWindow)
    → Ended (HasUntitled attempts) p (connect_to_pid p attempts (clear_connection w))
unfolding connect_to_pid
connect_to_pid-Ended p attempts w =
    under_if (Ended (HasUntitled attempts) p) w.available
      (λ _.
        connect_loop-Ended (HasUntitled attempts) p attempts (clear_connection w) (λ u. u)
          (inl refl))
      (λ _. inl refl)

get_pid-put : (s : Slots) (i : ℕ) (q : SlotProcess) → get_pid (put s i q) i ≡ q.pid
unfolding get_pid
get_pid-put s i q = ap pid_if_any same
  where
    same : get (put s i q) i ≡ some q
    same = ground (arith, get-put s i i q)

-- A process that has been launched is the slot's.
Stored : ℕ → Slots × Option ℕ → Type 0
Stored i (s, none) = Unit
Stored i (s, some p) = get_pid s i ≡ some p

launch_for_slot-Stored :
    (pid_exists : ℕ → Bool) (i : ℕ) (t : Termination) (l : Launch) (s : Slots)
    → Stored i (launch_for_slot pid_exists i t l s)
unfolding Stored launch_for_slot
launch_for_slot-Stored pid_exists i t l s =
    under_if (Stored i) (is_some (get s i))
      (λ _.
        stored (if is_active pid_exists s i then (terminate_for_slot i t s).0 else s)
          (truthy (launch_exe_get_pid l)))
      (λ _. tt)
  where
    stored : (s : Slots) (o : Option ℕ) → Stored i (store_launched i l.launched_at s o)
    stored s none = tt
    stored s (some p) = get_pid-put s i (active_process i p l.launched_at)

-- What the slot i has after a call of `launch_and_connect`. After a success, its window is that of its
-- process. After a failure its window names no process, save that an attempt stored the pid before the
-- title could not be read.
abbrev pub Connected : ℕ → List Attempt → Bool × WindowManager → Type 0
Connected i attempts (true, m) =
    (p : ℕ) × ((w : SlotWindow) × ((get_pid m.processes i ≡ some p)
        × ((get m.slot_windows i ≡ some w) × IsWindowOf p w)))
Connected i attempts (false, m) =
    (get m.slot_windows i ≡ none)
    ⊎ ((w : SlotWindow) × ((get m.slot_windows i ≡ some w)
          × ((w.window_pid ≡ none) ⊎ HasUntitled attempts)))

get-put-same : (d : Dict ℕ SlotWindow) (i : ℕ) (w : SlotWindow) → get (put d i w) i ≡ some w
get-put-same d i w = ground (arith, get-put d i i w)

connect_window-Connected :
    (i p : ℕ) (k : Connection) (m : WindowManager) (r : Bool × SlotWindow)
    → get_pid m.processes i ≡ some p
    → Ended (HasUntitled k.attempts) p r
    → Connected i k.attempts (connect_window i k m r)
connect_window-Connected i p k m (true, w) e h = (p, (w, (e, (get-put-same m.slot_windows i w, h))))
connect_window-Connected i p k m (false, w) e h = inr (w, (get-put-same m.slot_windows i w, h))

connect_launched-Connected :
    (i : ℕ) (k : Connection) (w : SlotWindow) (m : WindowManager) (r : Slots × Option ℕ)
    → Stored i r
    → get m.slot_windows i ≡ some (clear_connection w)
    → Connected i k.attempts (connect_launched i k (clear_connection w) m r)
unfolding Stored
connect_launched-Connected i k w m (s, none) h e = inr (clear_connection w, (e, inl refl))
connect_launched-Connected i k w m (s, some p) h e =
    connect_window-Connected i p k (record m { processes = s })
      (connect_to_pid p k.attempts (clear_connection w)) h (connect_to_pid-Ended p k.attempts w)

launch_window-Connected :
    (i : ℕ) (k : Connection) (m : WindowManager) (o : Option SlotWindow)
    → get m.slot_windows i ≡ o
    → Connected i k.attempts (launch_window i k m o)
launch_window-Connected i k m none e = inl e
launch_window-Connected i k m (some w) e =
    connect_launched-Connected i k w (set_window i (clear_connection w) m)
      (launch_for_slot k.shown.pid_exists i k.old_ends k.launch m.processes)
      (launch_for_slot-Stored k.shown.pid_exists i k.old_ends k.launch m.processes)
      (get-put-same m.slot_windows i (clear_connection w))

-- After `launch_and_connect`, whatever the slot had before and whatever the system answers: if it
-- returns True, the slot's window is there and names the very process that the process manager has for
-- the slot; if it returns False, there is no such slot, or its window names no process, save that an
-- attempt stored the pid before the title of the window could not be read.
pub launch_and_connect-Connected :
    (i : ℕ) (k : Connection) (m : WindowManager) → Connected i k.attempts (launch_and_connect i k m)
unfolding launch_and_connect
launch_and_connect-Connected i k m = launch_window-Connected i k m (get m.slot_windows i) refl
