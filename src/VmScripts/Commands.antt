-- ===== src/VmScripts/Commands.antt =====
-- The commands and the loop of components/vm/src/vm.rs: no script runs twice.
use botloader.Prelude.{
  ℕ, ◌≡◌, refl, sym, subst, false, List, [], ◌∷◌, ◌++◌, map, ◌==◌, ◌⊎◌, inl, inr, arith, Bool-cases,
  Option-cases, if_either, All-map, not, keep,
}
use botloader.VmSession.{Script}
use botloader.VmScripts.{
  VmCommand, dispatch_command, load_script, update_script, unload_scripts, restart, unloaded,
  ScriptState, Engine, get_script, is_failed_or_loaded, script_of, ScriptVm, run_script,
  compile_add_script, load_all, updated, any_id, handle_cmd, Tick, Loop, tick, ticks,
}
use botloader.VmScripts.Store.{Settled}
use botloader.VmScripts.Running.{Orderly, Once, run_script-Orderly, load_all-Orderly}

List-cases :
    (cmds : List VmCommand)
    → (cmds ≡ []) ⊎ ((cmd : VmCommand) × (rest : List VmCommand) × (cmds ≡ cmd ∷ rest))
List-cases [] = inl refl
List-cases (cmd ∷ rest) = inr (cmd, rest, refl)

Settled-append : (j : ℕ) (ss ts : List ScriptState) → Settled ss j → Settled (ss ++ ts) j
unfolding is_failed_or_loaded get_script
Settled-append j [] ts e = absurd (ground (arith, e))
Settled-append j (s ∷ ss) ts e = elim (Bool-cases (s.script.id == j)) [
  | inl t ↦ ground (arith, e, t)
  | inr t ↦ ground (arith, Settled-append j ss ts (ground (arith, e, t)), t)
]

module _ (engine : Engine) where
  compile_add_script-Settled :
      (script : Script) (ss : List ScriptState) (j : ℕ)
      → Settled ss j
      → Settled (compile_add_script engine script ss).0 j
  unfolding compile_add_script
  compile_add_script-Settled script ss j e =
      elim (Option-cases (engine.compile_typescript script.original_source)) [
        | inl n ↦ simp (n, compile_add_script) e
        | inr (c, n) ↦
            simp (n, compile_add_script)
              (Settled-append j ss (record { script = script; state = unloaded; compiled = c } ∷ [])
                e)
      ]

  load_script-Orderly :
      (script : Script) (vm : ScriptVm)
      → Orderly vm
      → Orderly (record vm { scripts = (compile_add_script engine script vm.scripts).0 })
  load_script-Orderly script vm (o, h) = (
    o,
    All-map (Settled vm.scripts) (Settled (compile_add_script engine script vm.scripts).0) vm.ran
        (λ j. compile_add_script-Settled script vm.scripts j) h,
  )

  handle_cmd-Orderly :
      (cmd : VmCommand) (vm : ScriptVm) → Orderly vm → Orderly (handle_cmd engine cmd vm)
  unfolding handle_cmd
  handle_cmd-Orderly (restart scripts) vm o = load_all-Orderly engine scripts vm
  handle_cmd-Orderly (dispatch_command name value id) vm o = o
  handle_cmd-Orderly (load_script script) vm o =
      let added = record vm { scripts = (compile_add_script engine script vm.scripts).0 } in
      if_either Orderly (compile_add_script engine script vm.scripts).1
        (run_script engine script.id added) added
        (λ t. run_script-Orderly engine script.id added (load_script-Orderly script vm o))
        (λ t. load_script-Orderly script vm o)
  handle_cmd-Orderly (update_script script) vm o =
      let old = map script_of vm.scripts in
      if_either Orderly (any_id script.id old) (load_all engine (map (updated script) old) vm) vm
        (λ t. load_all-Orderly engine (map (updated script) old) vm) (λ t. o)
  handle_cmd-Orderly (unload_scripts scripts) vm o =
      load_all-Orderly engine (keep (λ s. not (any_id s.id scripts)) (map script_of vm.scripts)) vm

  -- A tick runs nothing, or handles a command.
  tick-cases :
      (t : Tick) (l : Loop)
      → (((tick engine t l).vm.ran ≡ l.vm.ran) × ((tick engine t l).vm.scripts ≡ l.vm.scripts))
        ⊎ ((cmd : VmCommand) × ((tick engine t l).vm ≡ handle_cmd engine cmd l.vm))
  unfolding tick
  tick-cases t l = elim (Bool-cases t.woken) [
    | inl w ↦ inl (ground (arith, w), ground (arith, w))
    | inr w ↦ elim (List-cases (l.rx ++ t.arrived)) [
      | inr (cmd, rest, q) ↦ inr (cmd, ground (arith, w, q))
      | inl q ↦ inl (ground (arith, w, q), ground (arith, w, q))
    ]
  ]

  tick-Orderly : (t : Tick) (l : Loop) → Orderly l.vm → Orderly (tick engine t l).vm
  tick-Orderly t l o = elim (tick-cases t l) [
    | inl (r, s) ↦ simp (r, s) o
    | inr (cmd, e) ↦ subst Orderly (sym e) (handle_cmd-Orderly cmd l.vm o)
  ]

  ticks-Orderly : (ts : List Tick) (l : Loop) → Orderly l.vm → Orderly (ticks engine ts l).vm
  unfolding ticks
  ticks-Orderly [] l o = o
  ticks-Orderly (t ∷ ts) l o = ticks-Orderly ts (tick engine t l) (tick-Orderly t l o)

-- Whatever commands, wake-ups and results of the engine a machine gets after it started with some
-- scripts, and whichever modules load each other, no script is run twice in one isolate.
pub ticks-Once :
    (engine : Engine) (ts : List Tick) (scripts : List Script) (rx : List VmCommand) (vm : ScriptVm)
    → Once
        (ticks engine ts
          (record { vm = load_all engine scripts vm; rx = rx; completed = false })).vm.ran
ticks-Once engine ts scripts rx vm =
    (ticks-Orderly engine ts
      (record { vm = load_all engine scripts vm; rx = rx; completed = false })
      (load_all-Orderly engine scripts vm)).0
