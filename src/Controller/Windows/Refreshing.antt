-- ===== src/Controller/Windows/Refreshing.antt =====
-- What a refresh leaves: processes that run, and windows whose slots have one.
use aio_ss_usb_test_agent.Prelude.{
  ℕ, ◌≡◌, refl, ◌∙◌, Bool, true, false, ◌&&◌, not, is_some, under_if, Option, none, some, inl, inr,
  ap, ◌⊎◌, [], ◌∷◌, All, arith,
}
use aio_ss_usb_test_agent.Prelude.Dict.{Dict, nat_eq}
use aio_ss_usb_test_agent.Infrastructure.ProcessManager.{
  Slots, SlotProcess, truthy, is_active, refreshed, refresh_status,
}
use aio_ss_usb_test_agent.Controller.Windows.{
  SlotWindow, WindowManager, Shown, clear_connection, window_answer, connected_at,
  is_window_connected, refresh_window, refresh_windows, refresh_all_status,
}

-- If the slot has a process, it exists.
abbrev pub IsRunning : Shown → Option ℕ → Type 0
IsRunning sh none = Unit
IsRunning sh (some p) = sh.pid_exists p ≡ true

refreshed-IsRunning :
    (sh : Shown) (i : ℕ) (p : SlotProcess) (o : Option ℕ)
    → truthy p.pid ≡ o
    → IsRunning sh (truthy (refreshed sh.pid_exists i p o).pid)
refreshed-IsRunning sh i p none e = rw e tt
refreshed-IsRunning sh i p (some n) e =
    under_if (λ (q : SlotProcess). IsRunning sh (truthy q.pid)) (sh.pid_exists n) (λ x. rw e x)
      (λ _. tt)

abbrev pub AllRunning : Shown → Slots → Type 0
AllRunning sh s = All (λ (e : ℕ × SlotProcess). IsRunning sh (truthy e.1.pid)) s

refresh_status-AllRunning :
    (sh : Shown) (s : Slots) → AllRunning sh (refresh_status sh.pid_exists s)
unfolding refresh_status
refresh_status-AllRunning sh [] = tt
refresh_status-AllRunning sh ((i, p) ∷ s) =
    (refreshed-IsRunning sh i p (truthy p.pid) refl, refresh_status-AllRunning sh s)

-- A window that is taken for connected belongs to a slot whose process is active, or has the pid 0.
abbrev pub IsBacked : Shown → Slots → ℕ × SlotWindow → Type 0
IsBacked sh s (i, w) =
    (is_window_connected sh w).0 ≡ true
    → (is_active sh.pid_exists s i ≡ true) ⊎ (truthy w.window_pid ≡ none)

cleared : (sh : Shown) (w : SlotWindow) → (is_window_connected sh (clear_connection w)).0 ≡ false
unfolding is_window_connected
cleared sh w = ground arith

KeptOrCleared : SlotWindow → Bool × SlotWindow → Type 0
KeptOrCleared w r = (r.1 ≡ w) ⊎ (r.1 ≡ clear_connection w)

window_answer-KeptOrCleared :
    (w : SlotWindow) (o : Option Bool) → KeptOrCleared w (window_answer w o)
unfolding KeptOrCleared
window_answer-KeptOrCleared w none = inl refl
window_answer-KeptOrCleared w (some true) = inl refl
window_answer-KeptOrCleared w (some false) = inr refl

connected_at-KeptOrCleared :
    (sh : Shown) (w : SlotWindow) (o : Option ℕ) → KeptOrCleared w (connected_at sh w o)
unfolding KeptOrCleared
connected_at-KeptOrCleared sh w none = inl refl
connected_at-KeptOrCleared sh w (some p) =
    under_if (KeptOrCleared w) (sh.pid_exists p)
      (λ _. window_answer-KeptOrCleared w (sh.window_exists p)) (λ _. inr refl)

is_window_connected-KeptOrCleared :
    (sh : Shown) (w : SlotWindow) → KeptOrCleared w (is_window_connected sh w)
unfolding is_window_connected KeptOrCleared
is_window_connected-KeptOrCleared sh w =
    under_if (KeptOrCleared w) (w.available && (w.has_app && w.has_window))
      (λ _. connected_at-KeptOrCleared sh w w.window_pid) (λ _. inl refl)

refresh_window-IsBacked :
    (sh : Shown) (s : Slots) (i : ℕ) (w : SlotWindow) (r : Bool × SlotWindow)
    → KeptOrCleared w r
    → (is_window_connected sh w).0 ≡ r.0
    → IsBacked sh s (i, refresh_window sh s i r)
unfolding KeptOrCleared
refresh_window-IsBacked sh s i w (true, v) h e c =
    under_if (λ u. IsBacked sh s (i, u))
      (is_some (truthy v.window_pid) && not (is_active sh.pid_exists s i))
      (λ _ x. absurd (ground (arith, x, cleared sh v))) (λ kept _. ground (arith, kept)) c
refresh_window-IsBacked sh s i w (false, v) (inl same) e c =
    absurd (ground (arith, e, ap (λ u. (is_window_connected sh u).0) same ∙ e, c))
refresh_window-IsBacked sh s i w (false, v) (inr same) e c =
    absurd (ground (arith, ap (λ u. (is_window_connected sh u).0) same ∙ cleared sh w, c))

refresh_windows-AllBacked :
    (sh : Shown) (s : Slots) (ws : Dict ℕ SlotWindow)
    → All (IsBacked sh s) (refresh_windows sh s ws)
refresh_windows-AllBacked sh s [] = tt
refresh_windows-AllBacked sh s ((i, w) ∷ ws) = (
  refresh_window-IsBacked sh s i w (is_window_connected sh w)
      (is_window_connected-KeptOrCleared sh w) refl,
  refresh_windows-AllBacked sh s ws,
)

-- After a refresh every slot that has a process, of another pid than 0, has one that exists, and every
-- window that is still taken for connected belongs to a slot whose process is active, or has the pid 0,
-- if the system shows the same.
pub refresh_all_status-AllBacked :
    (sh : Shown) (m : WindowManager)
    → AllRunning sh (refresh_all_status sh m).processes
      × All (IsBacked sh (refresh_all_status sh m).processes) (refresh_all_status sh m).slot_windows
unfolding refresh_all_status
refresh_all_status-AllBacked sh m = (
  refresh_status-AllRunning sh m.processes,
  refresh_windows-AllBacked sh (refresh_status sh.pid_exists m.processes) m.slot_windows,
)
