-- ===== src/VmScripts/Loaded.antt =====
-- `restart` of components/vm/src/vm.rs: the scripts that a machine has afterwards.
use botloader.Prelude.{
  ℕ, ◌≡◌, refl, sym, ap, ◌∙◌, Bool, true, false, Option, none, some, List, [], ◌∷◌, ◌++◌, map,
  String, ◌==◌, inl, inr, Option-cases, if_either, keep,
}
use mathlib.Core.List.{append-nil, append_assoc, map-append}
use botloader.VmSession.{Script}
use botloader.VmScripts.{
  ScriptLoadState, unloaded, loaded, failed, ScriptState, Engine, set_state, same_text, mark_loaded,
  mark_all, script_of, ScriptVm, evaluate, run_script, run_scripts, compile_add_script, compile_all,
  load_all,
}
use botloader.VmScripts.Running.{
  AllStarted, Once, run_script-cases, run_scripts-AllStarted, load_all-Orderly,
}

abbrev pub is_some : Option String → Bool
is_some none = false
is_some (some t) = true

-- The scripts that compile.
abbrev pub compiling : Engine → List Script → List Script
compiling engine scripts = keep (λ s. is_some (engine.compile_typescript s.original_source)) scripts

abbrev sources : List ScriptState → List Script
sources ss = map script_of ss

set_state-sources :
    (id : ℕ) (st : ScriptLoadState) (ss : List ScriptState)
    → sources (set_state id st ss) ≡ sources ss
unfolding set_state
set_state-sources id st [] = refl
set_state-sources id st (s ∷ ss) =
    if_either (λ ts. sources ts ≡ sources (s ∷ ss)) (s.script.id == id)
      (record s { state = st } ∷ ss) (s ∷ set_state id st ss) (λ t. refl)
      (λ t. ap (λ ts. s.script ∷ ts) (set_state-sources id st ss))

mark_loaded-sources :
    (name : String) (ss : List ScriptState) → sources (mark_loaded name ss) ≡ sources ss
unfolding mark_loaded
mark_loaded-sources name [] = refl
mark_loaded-sources name (s ∷ ss) =
    if_either (λ ts. sources ts ≡ sources (s ∷ ss)) (same_text s.script.name name)
      (record s { state = loaded } ∷ ss) (s ∷ mark_loaded name ss) (λ t. refl)
      (λ t. ap (λ ts. s.script ∷ ts) (mark_loaded-sources name ss))

mark_all-sources :
    (names : List String) (ss : List ScriptState) → sources (mark_all names ss) ≡ sources ss
unfolding mark_all
mark_all-sources [] ss = refl
mark_all-sources (name ∷ names) ss =
    mark_all-sources names (mark_loaded name ss) ∙ mark_loaded-sources name ss

module _ (engine : Engine) where
  evaluate-sources :
      (s : ScriptState) (vm : ScriptVm)
      → sources (evaluate engine s vm).scripts ≡ sources vm.scripts
  unfolding evaluate
  evaluate-sources s vm =
      let id = s.script.id in
      let ss = set_state id loaded vm.scripts in
      let ts = mark_all (engine.load_side_module s).0 ss in
      let e : sources ts ≡ sources vm.scripts =
        mark_all-sources (engine.load_side_module s).0 ss
        ∙ set_state-sources id loaded vm.scripts in
      if_either (λ us. sources us ≡ sources vm.scripts) (engine.load_side_module s).1 ts
        (set_state id failed ts) (λ t. e) (λ t. set_state-sources id failed ts ∙ e)

  run_scripts-sources :
      (scripts : List Script) (vm : ScriptVm)
      → sources (run_scripts engine scripts vm).scripts ≡ sources vm.scripts
  unfolding run_scripts
  run_scripts-sources [] vm = refl
  run_scripts-sources (s ∷ ss) vm =
      run_scripts-sources ss (run_script engine s.id vm) ∙ elim (run_script-cases engine s.id vm) [
        | inl (e, n) ↦ ap (λ v. sources v.scripts) e
        | inr (st, q, w, e) ↦ ap (λ v. sources v.scripts) e ∙ evaluate-sources st vm
      ]

  compile_all-sources :
      (scripts : List Script) (ss : List ScriptState)
      → sources (compile_all engine scripts ss) ≡ sources ss ++ compiling engine scripts
  unfolding compile_all compile_add_script keep
  compile_all-sources [] ss = sym (append-nil (sources ss))
  compile_all-sources (s ∷ rest) ss =
      elim (Option-cases (engine.compile_typescript s.original_source)) [
        | inl n ↦ simp (n, compile_add_script) (compile_all-sources rest ss)
        | inr (text, n) ↦
            let added = record { script = s; state = unloaded; compiled = text } ∷ [] in
            simp (n, compile_add_script)
              (compile_all-sources rest (ss ++ added)
                ∙ ap (λ xs. xs ++ compiling engine rest) (map-append script_of ss added)
                ∙ append_assoc (sources ss) (s ∷ []) (compiling engine rest))
      ]

-- A machine that starts, or restarts, with some scripts has those that compile afterwards, in their order;
-- each script of the list that it has was run or loaded by another one, or failed, and none was run twice.
pub load_all-started :
    (engine : Engine) (scripts : List Script) (vm : ScriptVm)
    → let vm' = load_all engine scripts vm in
      (map script_of vm'.scripts ≡ compiling engine scripts)
      × AllStarted engine scripts vm'
      × Once vm'.ran
unfolding load_all
load_all-started engine scripts vm =
    let fresh = record vm { scripts = compile_all engine scripts []; ran = [] } in
    (
      run_scripts-sources engine scripts fresh ∙ compile_all-sources engine scripts [],
      run_scripts-AllStarted engine scripts fresh,
      (load_all-Orderly engine scripts vm).0,
    )
