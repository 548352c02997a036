-- ===== src/Infrastructure/ProcessManager/Launching.antt =====
-- Which process a search of the processes finds.
use aio_ss_usb_test_agent.Prelude.{
  ℕ, leb, ◌≡◌, refl, ◌⊎◌, inl, inr, Bool, true, false, not, ◌&&◌, under_if, or_else, Option, none,
  some, List, [], ◌∷◌, All, arith,
}
use aio_ss_usb_test_agent.Prelude.Dict.{nat_eq}
use aio_ss_usb_test_agent.Infrastructure.ProcessManager.{
  Process, Launch, Slots, is_in, existing_pids, find_other, find_new, launch_exe_get_pid,
  find_unassigned_process, get_all_active_pids,
}

-- A process of the list can be read, is one of the program, and has the pid.
abbrev pub Listed : ℕ → List Process → Type 0
Listed p [] = ⊥
Listed p (q ∷ ps) =
    ((q.is_readable ≡ true) × ((q.is_program ≡ true) × (q.process_pid ≡ p))) ⊎ Listed p ps

abbrev pub IsTaken : List ℕ → Process → Type 0
IsTaken pids q = q.is_readable && q.is_program ≡ true → is_in q.process_pid pids ≡ true

-- What a search that leaves out the pids may give for a list.
abbrev pub Chosen : List ℕ → List Process → Option ℕ → Type 0
Chosen pids ps none = All (IsTaken pids) ps
Chosen pids ps (some p) = (is_in p pids ≡ false) × Listed p ps

Chosen-later :
    (pids : List ℕ) (q : Process) (ps : List Process) (o : Option ℕ)
    → q.is_readable && (q.is_program && not (is_in q.process_pid pids)) ≡ false
    → Chosen pids ps o
    → Chosen pids (q ∷ ps) o
Chosen-later pids q ps none e h = ((λ r. ground (arith, e, r)), h)
Chosen-later pids q ps (some p) e h = (h.0, inr h.1)

pub find_other-Chosen : (pids : List ℕ) (ps : List Process) → Chosen pids ps (find_other pids ps)
unfolding find_other
find_other-Chosen pids [] = tt
find_other-Chosen pids (q ∷ ps) =
    under_if (Chosen pids (q ∷ ps))
      (q.is_readable && (q.is_program && not (is_in q.process_pid pids)))
      (λ e. (ground (arith, e), inl (ground (arith, e), (ground (arith, e), refl))))
      (λ e. Chosen-later pids q ps (find_other pids ps) e (find_other-Chosen pids ps))

abbrev pub ListedIn : ℕ → List (List Process) → Type 0
ListedIn p [] = ⊥
ListedIn p (ps ∷ polls) = Listed p ps ⊎ ListedIn p polls

abbrev pub AllTaken : List ℕ → List (List Process) → Type 0
AllTaken pids polls = All (λ ps. All (IsTaken pids) ps) polls

-- What a search of several lists, one after the other, may give.
abbrev pub ChosenIn : List ℕ → List (List Process) → Option ℕ → Type 0
ChosenIn pids polls none = AllTaken pids polls
ChosenIn pids polls (some p) = (is_in p pids ≡ false) × ListedIn p polls

or_else-ChosenIn :
    (pids : List ℕ) (ps : List Process) (polls : List (List Process)) (o r : Option ℕ)
    → Chosen pids ps o
    → ChosenIn pids polls r
    → ChosenIn pids (ps ∷ polls) (or_else o r)
or_else-ChosenIn pids ps polls none none h k = (h, k)
or_else-ChosenIn pids ps polls none (some p) h k = (k.0, inr k.1)
or_else-ChosenIn pids ps polls (some p) r h k = (h.0, inl h.1)

find_new-ChosenIn :
    (pids : List ℕ) (polls : List (List Process)) → ChosenIn pids polls (find_new pids polls)
unfolding find_new
find_new-ChosenIn pids [] = tt
find_new-ChosenIn pids (ps ∷ polls) =
    or_else-ChosenIn pids ps polls (find_other pids ps) (find_new pids polls)
      (find_other-Chosen pids ps) (find_new-ChosenIn pids polls)

-- The search for a process of no slot gives the pid of a listed process of the program that is none of
-- the pids of the running slots; and none only if every such process has the pid of a running slot.
pub find_unassigned_process-Chosen :
    (pid_exists : ℕ → Bool) (ps : List Process) (s : Slots)
    → Chosen (get_all_active_pids pid_exists s) ps (find_unassigned_process pid_exists ps s)
unfolding find_unassigned_process
find_unassigned_process-Chosen pid_exists ps s =
    find_other-Chosen (get_all_active_pids pid_exists s) ps

-- What a launch may give: a process that was not there before it.
abbrev pub Launched : Launch → Option ℕ → Type 0
Launched l none =
    (l.file_exists ≡ false) ⊎ ((leb l.result 32 ≡ true) ⊎ AllTaken (existing_pids l.before) l.polls)
Launched l (some p) = (is_in p (existing_pids l.before) ≡ false) × ListedIn p l.polls

ChosenIn-Launched :
    (l : Launch) (o : Option ℕ) → ChosenIn (existing_pids l.before) l.polls o → Launched l o
ChosenIn-Launched l none h = inr (inr h)
ChosenIn-Launched l (some p) h = h

-- A launch gives the pid of a process of the program that is listed after the call and was not among
-- those before it; and none only if the file is not there, or Windows refuses, or every process of the
-- program in the lists was there before.
pub launch_exe_get_pid-Launched : (l : Launch) → Launched l (launch_exe_get_pid l)
unfolding launch_exe_get_pid
launch_exe_get_pid-Launched l =
    under_if (Launched l) (not l.file_exists) (λ e. inl (ground (arith, e)))
      (λ _.
        under_if (Launched l) (leb l.result 32) (λ e. inr (inl e))
          (λ _.
            ChosenIn-Launched l (find_new (existing_pids l.before) l.polls)
              (find_new-ChosenIn (existing_pids l.before) l.polls)))
