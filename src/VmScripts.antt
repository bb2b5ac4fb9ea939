-- ===== src/VmScripts.antt =====
-- components/vm/src/lib.rs (`ScriptsStateStore`) and components/vm/src/vm.rs: the scripts of a machine, its
-- commands, and its loop. The compiler and the JavaScript engine are arguments: what a source
-- compiles to, and what happens when a script's module is loaded, which may load the modules of
-- other scripts. `ran` are the scripts that were run as such in the machine's isolate, in order. The end
-- of a script's top level and of the pending work before a restart are waited for; logs are left out.
pub mod Store
pub mod Running
pub mod Commands
pub mod Loaded
pub mod Idle
pub mod Handback
mod Examples
use botloader.Prelude.{
  ℕ, Bool, true, false, not, Option, none, some, List, [], ◌∷◌, ◌++◌, map, keep, String, ◌==◌,
  if◌then◌else◌,
}
use text.Mathlib.Text.{is_eq}
use Prim.Native.String.{compare as compare_text}
use botloader.VmSession.{Script, EventData}
use botloader.VmThread.Machine.{VmEvent, dispatched_event, vm_finished}

pub data VmCommand : Type 0 where
  dispatch_command : String → EventData → ℕ → VmCommand
  load_script update_script : Script → VmCommand
  unload_scripts restart : List Script → VmCommand

pub data ScriptLoadState : Type 0 where
  unloaded loaded failed : ScriptLoadState

pub record ScriptState : Type 0 where
  pub script : Script
  pub state : ScriptLoadState
  pub compiled : String

-- A module's load says which scripts' modules it loads, by their names, and whether it succeeds.
pub record Engine : Type 0 where
  pub compile_typescript : String → Option String
  pub load_side_module : ScriptState → List String × Bool

unfoldable pub get_script : ℕ → List ScriptState → Option ScriptState
get_script id [] = none
get_script id (s ∷ ss) = let rest = get_script id ss in if s.script.id == id then some s else rest

unfoldable pub is_failed_or_loaded : ℕ → List ScriptState → Option Bool
unfolding get_script
is_failed_or_loaded id scripts = elim (get_script id scripts) [
  | none ↦ none
  | some s ↦ elim s.state [ unloaded ↦ some false | _ ↦ some true ]
]

unfoldable pub set_state : ℕ → ScriptLoadState → List ScriptState → List ScriptState
set_state id new_state [] = []
set_state id new_state (s ∷ ss) =
    let rest = set_state id new_state ss in
    if s.script.id == id then record s { state = new_state } ∷ ss else s ∷ rest

abbrev same_text : String → String → Bool
same_text s t = is_eq (compare_text s t)

-- `try_load_script_module`: a script whose module is loaded by its name.
unfoldable pub mark_loaded : String → List ScriptState → List ScriptState
mark_loaded name [] = []
mark_loaded name (s ∷ ss) =
    let rest = mark_loaded name ss in
    if same_text s.script.name name then record s { state = loaded } ∷ ss else s ∷ rest

unfoldable pub mark_all : List String → List ScriptState → List ScriptState
unfolding mark_loaded
mark_all [] ss = ss
mark_all (name ∷ names) ss = mark_all names (mark_loaded name ss)

unfoldable pub compile_add_script : Engine → Script → List ScriptState → List ScriptState × Bool
compile_add_script engine script ss = elim (engine.compile_typescript script.original_source) [
  | none ↦ (ss, false)
  | some compiled ↦
      (ss ++ record { script = script; state = unloaded; compiled = compiled } ∷ [], true)
]

unfoldable pub compile_all : Engine → List Script → List ScriptState → List ScriptState
unfolding compile_add_script
compile_all engine [] ss = ss
compile_all engine (script ∷ scripts) ss =
    compile_all engine scripts (compile_add_script engine script ss).0

pub record ScriptVm : Type 0 where
  pub scripts : List ScriptState
  pub ran : List ℕ
  pub events : List VmEvent

unfoldable pub evaluate : Engine → ScriptState → ScriptVm → ScriptVm
unfolding set_state mark_all
evaluate engine s vm =
    let (names, ok) = engine.load_side_module s in
    let started : List ScriptState = mark_all names (set_state s.script.id loaded vm.scripts) in
    record vm {
      scripts = if ok then started else set_state s.script.id failed started;
      ran = vm.ran ++ s.script.id ∷ [];
    }

unfoldable pub run_script : Engine → ℕ → ScriptVm → ScriptVm
unfolding is_failed_or_loaded get_script evaluate
run_script engine id vm = elim (is_failed_or_loaded id vm.scripts) [
  | some true ↦ vm
  | _ ↦ elim (get_script id vm.scripts) [ none ↦ vm | some s ↦ evaluate engine s vm ]
]

unfoldable pub run_scripts : Engine → List Script → ScriptVm → ScriptVm
unfolding run_script
run_scripts engine [] vm = vm
run_scripts engine (script ∷ scripts) vm =
    run_scripts engine scripts (run_script engine script.id vm)

-- `restart`, and what `create_run` does before the loop: a new isolate with those scripts.
unfoldable pub load_all : Engine → List Script → ScriptVm → ScriptVm
unfolding compile_all run_scripts
load_all engine scripts vm =
    run_scripts engine scripts (record vm { scripts = compile_all engine scripts []; ran = [] })

abbrev pub script_of : ScriptState → Script
script_of s = s.script

abbrev pub updated : Script → Script → Script
updated new old = if old.id == new.id then new else old

unfoldable pub any_id : ℕ → List Script → Bool
any_id id [] = false
any_id id (s ∷ ss) = if s.id == id then true else any_id id ss

unfoldable pub handle_cmd : Engine → VmCommand → ScriptVm → ScriptVm
unfolding load_all compile_add_script run_script any_id keep
handle_cmd engine (restart scripts) vm = load_all engine scripts vm
handle_cmd engine (dispatch_command name value id) vm = record vm {
  events = vm.events ++ dispatched_event id ∷ [];
}
handle_cmd engine (load_script script) vm =
    let (scripts, ok) = compile_add_script engine script vm.scripts in
    let added : ScriptVm = record vm { scripts = scripts } in
    if ok then run_script engine script.id added else added
handle_cmd engine (update_script script) vm =
    let old : List Script = map script_of vm.scripts in
    if any_id script.id old then load_all engine (map (updated script) old) vm else vm
handle_cmd engine (unload_scripts scripts) vm =
    load_all engine (keep (λ s. not (any_id s.id scripts)) (map script_of vm.scripts)) vm

-- What a poll of the engine's event loop comes to.
pub data EngineTick : Type 0 where
  engine_pending engine_done engine_error : EngineTick

-- A poll of a machine that is not told to stop and whose channel of commands stays open: whether it
-- was woken up, the commands that came since the last poll, and what the engine does.
pub record Tick : Type 0 where
  pub woken : Bool
  pub arrived : List VmCommand
  pub engine_tick : EngineTick

pub record Loop : Type 0 where
  pub vm : ScriptVm
  pub rx : List VmCommand
  pub completed : Bool

-- One result of `TickFuture` and its handling in `run`; nothing happens where it is pending.
unfoldable pub tick : Engine → Tick → Loop → Loop
unfolding handle_cmd
tick engine t l =
    let queue : List VmCommand = l.rx ++ t.arrived in
    if t.woken then record l { rx = queue; completed = false } else elim queue [
      | cmd ∷ rest ↦ record { vm = handle_cmd engine cmd l.vm; rx = rest; completed = false }
      | [] ↦ elim t.engine_tick [
        | engine_pending ↦ l
        | engine_error ↦ record l { completed = false }
        | engine_done ↦ if l.completed then l else record l {
          vm = record l.vm { events = l.vm.events ++ vm_finished ∷ [] };
          completed = true;
        }
      ]
    ]

unfoldable pub ticks : Engine → List Tick → Loop → Loop
unfolding tick
ticks engine [] l = l
ticks engine (t ∷ ts) l = ticks engine ts (tick engine t l)
