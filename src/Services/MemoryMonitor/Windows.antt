-- ===== src/Services/MemoryMonitor/Windows.antt =====
-- The histories of the monitor are windows on everything that was read.
use aio_ss_usb_test_agent.Prelude.{
  ℕ, zero, suc, ◌-◌, ◌≤◌, ◌≡◌, refl, sym, ap, ◌∙◌, ltb, Bool, true, Bool-cases, under_if, inl, inr,
  Option, none, some, List, [], ◌∷◌, ◌++◌, length, drop, last_n, length-append, length-drop,
  append-nil, arith,
}
use aio_ss_usb_test_agent.Core.Memory.{MemoryStats, optimize}
use aio_ss_usb_test_agent.Services.MemoryMonitor.{
  MemoryMonitor, Level, Event, Look, append_bounded, check_memory, check_usage, check_thresholds,
  force_optimize, register_cleanup, unregister_cleanup, clear_history, alert, alert_level,
  maybe_log_stats, is_due, add_stats,
}
use aio_ss_usb_test_agent.Services.MemoryMonitor.Steps.{
  MonitorStep, checks, forces, registers, unregisters, clears, run_step, run_steps,
  finish_optimization-Quiet, auto_optimize_with-Quiet, maybe_log_stats-Leaves,
}

-- All that the checks have read since the last clearing.
abbrev pub reads : Option MemoryStats → List MemoryStats
reads none = []
reads (some stats) = stats ∷ []

abbrev pub read_by : List MemoryStats → MonitorStep → List MemoryStats
read_by seen (checks l) = seen ++ reads l.usage
read_by seen (forces r) = seen
read_by seen (registers c name) = seen
read_by seen (unregisters name) = seen
read_by seen clears = []

abbrev pub read_by_all : List MemoryStats → List MonitorStep → List MemoryStats
read_by_all seen [] = seen
read_by_all seen (s ∷ ss) = read_by_all (read_by seen s) ss

module _ {ℓ} {A : Type ℓ} where
  drop-append : (k : ℕ) (xs ys : List A) → k ≤ length xs → drop k (xs ++ ys) ≡ drop k xs ++ ys
  drop-append zero xs ys h = refl
  drop-append (suc k) [] ys h = absurd (omega (arith, h))
  drop-append (suc k) (x ∷ xs) ys h = drop-append k xs ys (omega (arith, h))

  drop-one : (k : ℕ) (xs : List A) → drop 1 (drop k xs) ≡ drop (suc k) xs
  drop-one zero xs = refl
  drop-one (suc k) [] = refl
  drop-one (suc k) (x ∷ xs) = drop-one k xs

  last_n-short : (n : ℕ) (xs : List A) → length xs ≤ n → last_n n xs ≡ xs
  last_n-short n xs h = ap (λ k. drop k xs) (nothing (length xs) h)
    where
      nothing : (k : ℕ) → k ≤ n → k - n ≡ 0
      nothing k h = omega (arith, h)

  length-snoc : (xs : List A) (x : A) → length (xs ++ x ∷ []) ≡ suc (length xs)
  length-snoc xs x = omega (arith, length-append xs (x ∷ []))

  -- More than n items: the window moves by one.
  last_n-full :
      (n : ℕ) (xs : List A) (x : A)
      → n ≤ length xs
      → last_n n (last_n n xs ++ x ∷ []) ≡ last_n n (xs ++ x ∷ [])
  last_n-full n xs x h =
      ap (λ j. drop j (drop k xs ++ x ∷ [])) one_more
      ∙ (ap (drop 1) (sym (drop-append k xs (x ∷ []) (omega arith)))
          ∙ (drop-one k (xs ++ x ∷ []) ∙ ap (λ j. drop j (xs ++ x ∷ [])) next))
    where
      k : ℕ
      k = length xs - n

      one_more : length (drop k xs ++ x ∷ []) - n ≡ 1
      one_more = omega (arith, length-snoc (drop k xs) x, length-drop k xs, h)

      next : suc k ≡ length (xs ++ x ∷ []) - n
      next = omega (arith, length-snoc xs x, h)

  append_bounded-slice :
      (n : ℕ) (h : List A) (x : A) → append_bounded n h x ≡ last_n n (h ++ x ∷ [])
  append_bounded-slice n h x =
      under_if (λ xs. xs ≡ last_n n (h ++ x ∷ [])) (ltb n (length (h ++ x ∷ []))) (λ _. refl)
        (λ e. sym (last_n-short n (h ++ x ∷ []) (ground (arith, e))))

  -- A bounded history of the items of xs, with x appended to it.
  pub append_bounded-last_n :
      (n : ℕ) (xs : List A) (x : A) → append_bounded n (last_n n xs) x ≡ last_n n (xs ++ x ∷ [])
  append_bounded-last_n n xs x =
      append_bounded-slice n (last_n n xs) x ∙ elim (Bool-cases (ltb (length xs) n)) [
        | inl e ↦ ap (λ h. last_n n (h ++ x ∷ [])) (last_n-short n xs (ground (arith, e)))
        | inr e ↦ last_n-full n xs x (ground (arith, e))
      ]

alert-history :
    (stats : MemoryStats) (now told : ℕ) (m : MemoryMonitor) (o : Option Level)
    (f : Option (Level → MemoryStats → Bool))
    → (alert stats now told m o f).0.stats_history ≡ m.stats_history
unfolding alert
alert-history stats now told m none f = refl
alert-history stats now told m (some level) none = refl
alert-history stats now told m (some level) (some f) =
    under_if (λ (r : MemoryMonitor × List Event). r.0.stats_history ≡ m.stats_history)
      (f level stats) (λ _. refl) (λ _. refl)

check_thresholds-history :
    (stats : MemoryStats) (now told : ℕ) (m : MemoryMonitor)
    → (check_thresholds stats now told m).0.stats_history ≡ m.stats_history
unfolding check_thresholds
check_thresholds-history stats now told m =
    under_if (λ (r : MemoryMonitor × List Event). r.0.stats_history ≡ m.stats_history)
      (is_due 300 now m.last_alert_time)
      (λ _. alert-history stats now told m (alert_level stats m) m.on_memory_alert) (λ _. refl)

check_usage-history :
    (l : Look) (o : Option MemoryStats) (m : MemoryMonitor) (seen : List MemoryStats)
    → m.stats_history ≡ last_n 1000 seen
    → (check_usage l o m).0.stats_history ≡ last_n 1000 (seen ++ reads o)
check_usage-history l none m seen e = e ∙ ap (last_n 1000) (sym (append-nil seen))
check_usage-history l (some stats) m seen e =
    let added = add_stats stats m in
    let logged = maybe_log_stats l.log_now l.logged added in
    let checked = check_thresholds stats l.alert_now l.told logged in
    (auto_optimize_with-Quiet l checked.0).0.same_history
    ∙ (check_thresholds-history stats l.alert_now l.told logged
        ∙ ((maybe_log_stats-Leaves l.log_now l.logged added).same_history
            ∙ (ap (λ h. append_bounded 1000 h stats) e ∙ append_bounded-last_n 1000 seen stats)))

run_step-history :
    (s : MonitorStep) (m : MemoryMonitor) (seen : List MemoryStats)
    → m.stats_history ≡ last_n 1000 seen
    → (run_step m s).0.stats_history ≡ last_n 1000 (read_by seen s)
unfolding check_memory force_optimize register_cleanup unregister_cleanup clear_history
run_step-history (checks l) m seen e = check_usage-history l l.usage m seen e
run_step-history (forces r) m seen e =
    (finish_optimization-Quiet m (optimize true r m.memory_manager)).0.same_history ∙ e
run_step-history (registers c name) m seen e = e
run_step-history (unregisters name) m seen e = e
run_step-history clears m seen e = refl

-- Whatever is read, forced, registered and cleared: the history of the readings is the last thousand
-- of all that the checks have read since the last clearing, in their order.
pub run_steps-history :
    (m : MemoryMonitor) (ss : List MonitorStep) (seen : List MemoryStats)
    → m.stats_history ≡ last_n 1000 seen
    → (run_steps m ss).0.stats_history ≡ last_n 1000 (read_by_all seen ss)
run_steps-history m [] seen e = e
run_steps-history m (s ∷ ss) seen e =
    run_steps-history (run_step m s).0 ss (read_by seen s) (run_step-history s m seen e)
