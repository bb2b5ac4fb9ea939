-- ===== src/VmScripts/Running.antt =====
-- `run_script`, `restart` and the loop of components/vm/src/vm.rs: which scripts run, and how often.
use botloader.Prelude.{
  ℕ, ◌≡◌, refl, sym, ap, ◌∙◌, ◌≢◌, subst, false, none, some, List, [], ◌∷◌, ◌++◌, ◌==◌, ◌⊎◌, inl,
  inr, arith, Bool-cases, Option-cases, if_either, All, All-map, All-append,
}
use botloader.VmSession.{Script}
use botloader.VmScripts.{
  ScriptLoadState, unloaded, loaded, failed, ScriptState, Engine, get_script, is_failed_or_loaded,
  set_state, mark_all, ScriptVm, evaluate, run_script, run_scripts, compile_all, load_all,
}
use botloader.VmScripts.Store.{
  Settled, Advances, Advances-trans, set_state-Advances, mark_all-Advances, set_state-Settled,
}

-- No entry of a list comes again.
abbrev pub Once : List ℕ → Type 0
Once [] = Unit {0}
Once (x ∷ xs) = All (λ y. y ≢ x) xs × Once xs

Once-snoc : (x : ℕ) (xs : List ℕ) → All (λ y. y ≢ x) xs → Once xs → Once (xs ++ x ∷ [])
Once-snoc x [] n o = (tt, tt)
Once-snoc x (y ∷ ys) n o =
    (All-append (λ z. z ≢ y) ys (x ∷ []) o.0 (λ e. n.0 (sym e), tt), Once-snoc x ys n.1 o.1)

-- A machine whose runs were of scripts that are settled now, no two of the same.
abbrev pub Orderly : ScriptVm → Type 0
Orderly vm = Once vm.ran × All (Settled vm.scripts) vm.ran

loaded-nd : loaded ≢ unloaded
loaded-nd e = absurd (ground (arith, e))

failed-nd : failed ≢ unloaded
failed-nd e = absurd (ground (arith, e))

Settled-after : (id : ℕ) (ss ts : List ScriptState) → Advances ss ts → Settled ss id → Settled ts id
Settled-after id ss ts f e = elim (f id) [ inl e' ↦ e' ∙ e | inr e' ↦ e' ]

not_waiting_after :
    (id : ℕ) (ss ts : List ScriptState)
    → Advances ss ts
    → is_failed_or_loaded id ss ≢ some false
    → is_failed_or_loaded id ts ≢ some false
not_waiting_after id ss ts f n e = elim (f id) [
  | inl e' ↦ n (sym e' ∙ e)
  | inr e' ↦ absurd (ground (arith, e, e'))
]

state_cases : (st : ScriptLoadState) → (st ≡ unloaded) ⊎ ((st ≡ loaded) ⊎ (st ≡ failed))
state_cases unloaded = inl refl
state_cases loaded = inr (inl refl)
state_cases failed = inr (inr refl)

get_script-id :
    (id : ℕ) (s : ScriptState) (ss : List ScriptState)
    → get_script id ss ≡ some s
    → s.script.id ≡ id
unfolding get_script
get_script-id id s [] e = absurd (ground (arith, e))
get_script-id id s (t ∷ ts) e = elim (Bool-cases (t.script.id == id)) [
  | inl b ↦ ground (arith, b, e)
  | inr b ↦ get_script-id id s ts (ground (arith, b, e))
]

module _ (engine : Engine) where
  -- The store after a script's module is loaded.
  evaluate-Advances :
      (s : ScriptState) (vm : ScriptVm) → Advances vm.scripts (evaluate engine s vm).scripts
  unfolding evaluate
  evaluate-Advances s vm =
      let id = s.script.id in
      let ss = set_state id loaded vm.scripts in
      let ts = mark_all (engine.load_side_module s).0 ss in
      let f : Advances vm.scripts ts =
        Advances-trans vm.scripts ss ts (set_state-Advances id loaded vm.scripts loaded-nd)
          (mark_all-Advances (engine.load_side_module s).0 ss) in
      if_either (Advances vm.scripts) (engine.load_side_module s).1 ts (set_state id failed ts)
        (λ t. f)
        (λ t.
          Advances-trans vm.scripts ts (set_state id failed ts) f
            (set_state-Advances id failed ts failed-nd))

  evaluate-Settled :
      (s : ScriptState) (vm : ScriptVm)
      → is_failed_or_loaded s.script.id vm.scripts ≢ none
      → Settled (evaluate engine s vm).scripts s.script.id
  unfolding evaluate
  evaluate-Settled s vm n =
      let id = s.script.id in
      let ss = set_state id loaded vm.scripts in
      let ts = mark_all (engine.load_side_module s).0 ss in
      let e : Settled ts id =
        Settled-after id ss ts (mark_all-Advances (engine.load_side_module s).0 ss)
          (set_state-Settled id loaded vm.scripts loaded-nd n) in
      if_either (λ us. Settled us id) (engine.load_side_module s).1 ts (set_state id failed ts)
        (λ t. e)
        (λ t.
          Settled-after id ts (set_state id failed ts) (set_state-Advances id failed ts failed-nd)
            e)

  evaluate-ran :
      (s : ScriptState) (vm : ScriptVm) → (evaluate engine s vm).ran ≡ vm.ran ++ s.script.id ∷ []
  unfolding evaluate
  evaluate-ran s vm = refl

  -- A run of a script changes nothing, or runs the script of that id, which was not settled.
  pub run_script-cases :
      (id : ℕ) (vm : ScriptVm)
      → ((run_script engine id vm ≡ vm) × (is_failed_or_loaded id vm.scripts ≢ some false))
        ⊎ ((s : ScriptState) × (s.script.id ≡ id)
            × (is_failed_or_loaded id vm.scripts ≡ some false)
            × (run_script engine id vm ≡ evaluate engine s vm))
  unfolding run_script is_failed_or_loaded
  run_script-cases id vm = elim (Option-cases (get_script id vm.scripts)) [
    | inl e ↦ inl (ground (arith, e), ground (arith, e))
    | inr (s, e) ↦ elim (state_cases s.state) [
      | inl u ↦ inr (s, get_script-id id s vm.scripts e, ground (arith, e, u), ground (arith, e, u))
      | inr (inl u) ↦ inl (ground (arith, e, u), ground (arith, e, u))
      | inr (inr u) ↦ inl (ground (arith, e, u), ground (arith, e, u))
    ]
  ]

  evaluate-Orderly :
      (s : ScriptState) (vm : ScriptVm)
      → is_failed_or_loaded s.script.id vm.scripts ≡ some false
      → Orderly vm
      → Orderly (evaluate engine s vm)
  unfolding evaluate
  evaluate-Orderly s vm e (o, h) = (
    Once-snoc s.script.id vm.ran
        (All-map (Settled vm.scripts) (λ y. y ≢ s.script.id) vm.ran
          (λ y h' q.
            absurd (ground (arith, e, sym h' ∙ ap (λ z. is_failed_or_loaded z vm.scripts) q)))
          h)
        o,
    All-append (Settled (evaluate engine s vm).scripts) vm.ran (s.script.id ∷ [])
        (All-map (Settled vm.scripts) (Settled (evaluate engine s vm).scripts) vm.ran
          (λ y. Settled-after y vm.scripts (evaluate engine s vm).scripts (evaluate-Advances s vm))
          h)
        (evaluate-Settled s vm (λ n. absurd (ground (arith, e, n))), tt),
  )

  run_script-Advances :
      (id : ℕ) (vm : ScriptVm) → Advances vm.scripts (run_script engine id vm).scripts
  run_script-Advances id vm = elim (run_script-cases id vm) [
    | inl (e, n) ↦ subst (λ v. Advances vm.scripts v.scripts) (sym e) (λ j. inl refl)
    | inr (s, q, w, e) ↦ subst (λ v. Advances vm.scripts v.scripts) (sym e) (evaluate-Advances s vm)
  ]

  pub run_script-Orderly : (id : ℕ) (vm : ScriptVm) → Orderly vm → Orderly (run_script engine id vm)
  run_script-Orderly id vm o = elim (run_script-cases id vm) [
    | inl (e, n) ↦ subst Orderly (sym e) o
    | inr (s, q, w, e) ↦
        subst Orderly (sym e)
          (evaluate-Orderly s vm (ap (λ j. is_failed_or_loaded j vm.scripts) q ∙ w) o)
  ]

  run_script-not_waiting :
      (id : ℕ) (vm : ScriptVm)
      → is_failed_or_loaded id (run_script engine id vm).scripts ≢ some false
  run_script-not_waiting id vm = elim (run_script-cases id vm) [
    | inl (e, n) ↦ subst (λ v. is_failed_or_loaded id v.scripts ≢ some false) (sym e) n
    | inr (s, q, w, e) ↦ λ b. absurd (
        ground (
          arith,
          b,
          ap (λ v. is_failed_or_loaded id v.scripts) e,
          ap (λ j. is_failed_or_loaded j (evaluate engine s vm).scripts) (sym q)
              ∙ evaluate-Settled s vm (λ n.
                absurd (ground (arith, n, ap (λ j. is_failed_or_loaded j vm.scripts) q, w))),
        ))
  ]

  run_scripts-Orderly :
      (scripts : List Script) (vm : ScriptVm) → Orderly vm → Orderly (run_scripts engine scripts vm)
  unfolding run_scripts
  run_scripts-Orderly [] vm o = o
  run_scripts-Orderly (s ∷ ss) vm o =
      run_scripts-Orderly ss (run_script engine s.id vm) (run_script-Orderly s.id vm o)

  run_scripts-Advances :
      (scripts : List Script) (vm : ScriptVm)
      → Advances vm.scripts (run_scripts engine scripts vm).scripts
  unfolding run_scripts
  run_scripts-Advances [] vm = λ j. inl refl
  run_scripts-Advances (s ∷ ss) vm =
      Advances-trans vm.scripts (run_script engine s.id vm).scripts
        (run_scripts engine (s ∷ ss) vm).scripts (run_script-Advances s.id vm)
        (run_scripts-Advances ss (run_script engine s.id vm))

  -- No script of the list waits to be run.
  abbrev pub AllStarted : List Script → ScriptVm → Type 0
  AllStarted scripts vm = All (λ s. is_failed_or_loaded s.id vm.scripts ≢ some false) scripts

  pub run_scripts-AllStarted :
      (scripts : List Script) (vm : ScriptVm) → AllStarted scripts (run_scripts engine scripts vm)
  unfolding run_scripts
  run_scripts-AllStarted [] vm = tt
  run_scripts-AllStarted (s ∷ ss) vm = (
    not_waiting_after s.id (run_script engine s.id vm).scripts
        (run_scripts engine (s ∷ ss) vm).scripts
        (run_scripts-Advances ss (run_script engine s.id vm)) (run_script-not_waiting s.id vm),
    run_scripts-AllStarted ss (run_script engine s.id vm),
  )

  pub load_all-Orderly :
      (scripts : List Script) (vm : ScriptVm) → Orderly (load_all engine scripts vm)
  unfolding load_all
  load_all-Orderly scripts vm =
      run_scripts-Orderly scripts (record vm { scripts = compile_all engine scripts []; ran = [] })
        (tt, tt)
