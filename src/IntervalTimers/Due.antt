-- ===== src/IntervalTimers/Due.antt =====
-- The timers that are due, in `trigger_timers` and `next_action` of
-- cmd/scheduler/src/interval_timer_manager.rs.
use text.Mathlib.TextPositions.{eq_refl}
use botloader.Prelude.{
  ℕ, ◌≡◌, ◌≢◌, refl, sym, ap, subst, Bool, true, false, ◌||◌, Option, none, some, List, [], ◌∷◌,
  ◌++◌, map, String, ltb, if◌then◌else◌, keep, arith, All, All-map, All-keep, Bool-cases,
  Option-cases, inl, inr,
}
use botloader.ScheduledTasks.{run, contains_string}
use botloader.IntervalTimers.{
  WrappedIntervalTimer, IntervalManager, is_triggered, not_pending, lowest, next_event_time,
  min_time, next_action, inner_timer, timer_name, triggered_at, get_triggered_timers,
  trigger_timers,
}

abbrev pub Entry : Type 0
Entry = String × WrappedIntervalTimer

-- A timer stands in the map under its own name.
abbrev pub IsKeyed : Entry → Type 0
IsKeyed (name, timer) = timer.inner.name ≡ name

abbrev NotBefore : ℕ → Option ℕ → Type 0
NotBefore now none = Unit
NotBefore now (some t) = ltb t now ≡ false

lowest-NotBefore :
    (now : ℕ) (xs : List Entry)
    → All (λ p. triggered_at now p ≡ false) xs
    → NotBefore now (lowest xs)
unfolding lowest is_triggered
lowest-NotBefore now [] h = tt
lowest-NotBefore now ((name, timer) ∷ xs) h = elim (Option-cases (lowest xs)) [
  | inl e ↦ rw e h.0
  | inr (t, e) ↦ rw e (ground (arith, subst (NotBefore now) e (lowest-NotBefore now xs h.1)))
]

NotBefore-lowest :
    (now : ℕ) (xs : List Entry) → NotBefore now (lowest xs) → keep (triggered_at now) xs ≡ []
unfolding lowest is_triggered keep
NotBefore-lowest now [] h = refl
NotBefore-lowest now ((name, timer) ∷ xs) h = elim (Option-cases (lowest xs)) [
  | inl e ↦
      let here : ltb timer.next_run now ≡ false =
        subst (NotBefore now) (ap (min_time timer.next_run) e) h in
      rw here (NotBefore-lowest now xs (subst (NotBefore now) (sym e) tt))
  | inr (t, e) ↦
      let both : ltb (if ltb t timer.next_run then t else timer.next_run) now ≡ false =
        subst (NotBefore now) (ap (min_time timer.next_run) e) h in
      let here : ltb timer.next_run now ≡ false = ground arith in
      let later : ltb t now ≡ false = ground arith in
      rw here (NotBefore-lowest now xs (subst (NotBefore now) (sym e) later))
]

nothing_due :
    (now : ℕ) (m : IntervalManager)
    → NotBefore now (next_event_time m)
    → get_triggered_timers now m ≡ []
unfolding next_event_time get_triggered_timers
nothing_due now m h =
    ap (map inner_timer) (NotBefore-lowest now (keep (not_pending m.pending) m.loaded_intervals) h)

-- `trigger_timers` returns every timer that is due and that no acknowledgement is awaited for, and no
-- other: its early returns lose none.
pub trigger_timers-All_due :
    (now : ℕ) (m : IntervalManager) → (trigger_timers now m).1 ≡ get_triggered_timers now m
unfolding trigger_timers
trigger_timers-All_due now m = elim (Option-cases (next_event_time m)) [
  | inl e ↦ rw (e, trigger_timers) (sym (nothing_due now m (subst (NotBefore now) (sym e) tt)))
  | inr (t, e) ↦ elim (Bool-cases (ltb t now)) [
    | inl f ↦ rw (e, trigger_timers, f) refl
    | inr f ↦ rw (e, trigger_timers, f) (sym (nothing_due now m (subst (NotBefore now) (sym e) f)))
  ]
]

contains_string-append :
    (n : String) (xs ys : List String)
    → contains_string n (xs ++ ys) ≡ (contains_string n xs || contains_string n ys)
unfolding contains_string
contains_string-append n [] ys = refl
contains_string-append n (x ∷ xs) ys = ground (arith, contains_string-append n xs ys)

abbrev pub names : List Entry → List String
names xs = map timer_name (map inner_timer xs)

contains_string-here : (n x : String) (xs : List String) → x ≡ n → contains_string n (x ∷ xs) ≡ true
unfolding contains_string
contains_string-here n x xs e = rw (e, eq_refl n) refl

contains_string-later :
    (n x : String) (xs : List String)
    → contains_string n xs ≡ true
    → contains_string n (x ∷ xs) ≡ true
unfolding contains_string
contains_string-later n x xs h = ground arith

keep-yes :
    (q : Entry → Bool) (x : Entry) (xs : List Entry) → q x ≡ true → keep q (x ∷ xs) ≡ x ∷ keep q xs
unfolding keep
keep-yes q x xs e = rw e

keep-no :
    (q : Entry → Bool) (x : Entry) (xs : List Entry) → q x ≡ false → keep q (x ∷ xs) ≡ keep q xs
unfolding keep
keep-no q x xs e = rw e

abbrev NamedIn : (Entry → Bool) → List Entry → Entry → Type 0
NamedIn q ys p = q p ≡ true → contains_string p.0 (names ys) ≡ true

-- A timer that is kept is named among those kept.
keep-names : (q : Entry → Bool) (xs : List Entry) → All IsKeyed xs → All (NamedIn q (keep q xs)) xs
keep-names q [] h = tt
keep-names q ((name, timer) ∷ xs) h = elim (Bool-cases (q (name, timer))) [
  | inl e ↦
      subst (λ ys. All (NamedIn q ys) ((name, timer) ∷ xs)) (sym (keep-yes q (name, timer) xs e))
        (
          λ f. contains_string-here name timer.inner.name (names (keep q xs)) h.0,
          All-map (NamedIn q (keep q xs)) (NamedIn q ((name, timer) ∷ keep q xs)) xs
              (λ p f g. contains_string-later p.0 timer.inner.name (names (keep q xs)) (f g))
              (keep-names q xs h.1),
        )
  | inr e ↦
      subst (λ ys. All (NamedIn q ys) ((name, timer) ∷ xs)) (sym (keep-no q (name, timer) xs e))
        (λ f. ground (arith, e, f), keep-names q xs h.1)
]

-- What holds of the kept entries holds of the entries that pass the test.
All-unkeep :
    (P : Entry → Type 0) (q : Entry → Bool) (xs : List Entry)
    → All P (keep q xs)
    → All (λ p. q p ≡ true → P p) xs
All-unkeep P q [] h = tt
All-unkeep P q (x ∷ xs) h = elim (Bool-cases (q x)) [
  | inl e ↦
      let k : All P (x ∷ keep q xs) = subst (All P) (keep-yes q x xs e) h in
      (λ f. k.0, All-unkeep P q xs k.1)
  | inr e ↦ (λ f. ground (arith, e, f), All-unkeep P q xs (subst (All P) (keep-no q x xs e) h))
]

All-rekeep :
    (P : Entry → Type 0) (q : Entry → Bool) (xs : List Entry)
    → All (λ p. q p ≡ true → P p) xs
    → All P (keep q xs)
unfolding keep
All-rekeep P q [] h = h
All-rekeep P q (x ∷ xs) h = elim (Bool-cases (q x)) [
  | inl e ↦ subst (All P) (sym (keep-yes q x xs e)) (h.0 e, All-rekeep P q xs h.1)
  | inr e ↦ subst (All P) (sym (keep-no q x xs e)) (All-rekeep P q xs h.1)
]

module _ (now : ℕ) (pending : List String) (xs : List Entry) where
  abbrev triggered : List String
  triggered = names (keep (triggered_at now) (keep (not_pending pending) xs))

  quiet :
      (p : Entry)
      → (not_pending pending p ≡ true
          → NamedIn (triggered_at now) (keep (triggered_at now) (keep (not_pending pending) xs)) p)
      → not_pending (pending ++ triggered) p ≡ true
      → triggered_at now p ≡ false
  quiet (name, timer) f g = elim (Bool-cases (triggered_at now (name, timer))) [
    | inr e ↦ e
    | inl e ↦ elim (Bool-cases (contains_string name pending)) [
      | inl h ↦ ground (arith, contains_string-append name pending triggered)
      | inr h ↦
          let named : contains_string name triggered ≡ true = f (rw h refl) e in
          ground (arith, contains_string-append name pending triggered)
    ]
  ]

  -- Once the timers that are due are pending, no timer that is not pending is due.
  none_due : All IsKeyed xs → NotBefore now (lowest (keep (not_pending (pending ++ triggered)) xs))
  none_due h =
      let kept : All IsKeyed (keep (not_pending pending) xs) =
        All-keep IsKeyed (not_pending pending) xs h in
      lowest-NotBefore now (keep (not_pending (pending ++ triggered)) xs) (
        All-rekeep (λ p. triggered_at now p ≡ false) (not_pending (pending ++ triggered)) xs
          (All-map
            (λ p.
              not_pending pending p ≡ true
              → NamedIn (triggered_at now) (keep (triggered_at now) (keep (not_pending pending) xs))
                  p)
            (λ p. not_pending (pending ++ triggered) p ≡ true → triggered_at now p ≡ false) xs quiet
            (All-unkeep
              (NamedIn (triggered_at now) (keep (triggered_at now) (keep (not_pending pending) xs)))
              (not_pending pending) xs
              (keep-names (triggered_at now) (keep (not_pending pending) xs) kept))))

triggered_quiet :
    (now : ℕ) (m : IntervalManager)
    → All IsKeyed m.loaded_intervals
    → NotBefore now (
        next_event_time
          (record m { pending = m.pending ++ map timer_name (get_triggered_timers now m) }))
unfolding next_event_time get_triggered_timers
triggered_quiet now m h = none_due now m.pending m.loaded_intervals h

next_action-NotBefore :
    (now : ℕ) (m : IntervalManager) → NotBefore now (next_event_time m) → next_action now m ≢ run
unfolding next_action
next_action-NotBefore now m h = elim (Option-cases (next_event_time m)) [
  | inl e ↦ λ f. ground (arith, e, f)
  | inr (t, e) ↦ λ f. ground (arith, e, f, subst (NotBefore now) e h)
]

-- Right after `trigger_timers`, the manager does not ask to run its timers again, if every timer
-- stands in the map under its own name: those that were due are pending, and the next event is one to
-- wait for.
pub next_action-trigger_timers :
    (now : ℕ) (m : IntervalManager)
    → All IsKeyed m.loaded_intervals
    → next_action now (trigger_timers now m).0 ≢ run
unfolding trigger_timers
next_action-trigger_timers now m h = elim (Option-cases (next_event_time m)) [
  | inl e ↦ rw (e, trigger_timers) (next_action-NotBefore now m (subst (NotBefore now) (sym e) tt))
  | inr (t, e) ↦ elim (Bool-cases (ltb t now)) [
    | inr f ↦
        rw (e, trigger_timers, f) (next_action-NotBefore now m (subst (NotBefore now) (sym e) f))
    | inl f ↦ rw (e, trigger_timers, f) (next_action-NotBefore now _ (triggered_quiet now m h))
  ]
]
