-- ===== src/VmScripts/Examples.antt =====
-- A machine with two scripts that load each other, and one that does not compile; and an idle machine
-- with its worker and its session.
use botloader.Prelude.{
  ◌≡◌, refl, true, false, none, some, [], ◌∷◌, inl, inr, map, arith, if◌then◌else◌, List,
}
use botloader.VmSession.Fixtures.{worker, env}
use botloader.VmSession.{
  Script, unknown, discord_event, dispatch, Worker, Env, VmSession, drain_inbox,
}
use botloader.VmSession as VmSession
use botloader.VmWorker.{WorkerState, VmWorker, run}
use botloader.VmWorker as VmWorker
use botloader.VmScripts.{
  load_script, update_script, unload_scripts, same_text, script_of, Engine, ScriptVm, load_all,
  engine_pending, Tick, ticks,
}
use botloader.VmScripts.Running.{Once, AllStarted}
use botloader.VmScripts.Commands.{ticks-Once}
use botloader.VmScripts.Loaded.{compiling, load_all-started}
use botloader.VmScripts.Idle.{Event, quiet_ticks, waiting, inputs}
use botloader.VmScripts.Handback.{Returns, idle-Returns}

abbrev script_a : Script
script_a = record { id = 1; name = "a"; original_source = "import b"; enabled = true }

abbrev script_b : Script
script_b = record { id = 2; name = "b"; original_source = "import a"; enabled = true }

abbrev script_bad : Script
script_bad = record { id = 3; name = "c"; original_source = "%"; enabled = true }

abbrev engine : Engine
engine = record {
  compile_typescript = λ source. if same_text source "%" then none else some source;
  load_side_module = λ s. (if same_text s.script.name "a" then "b" ∷ [] else "a" ∷ [], true);
}

abbrev empty_vm : ScriptVm
empty_vm = record { scripts = []; ran = []; events = [] }

load_all-started_example :
    let vm' = load_all engine (script_a ∷ script_bad ∷ script_b ∷ []) empty_vm in
    (map script_of vm'.scripts ≡ compiling engine (script_a ∷ script_bad ∷ script_b ∷ []))
    × AllStarted engine (script_a ∷ script_bad ∷ script_b ∷ []) vm'
    × Once vm'.ran
load_all-started_example = load_all-started engine (script_a ∷ script_bad ∷ script_b ∷ []) empty_vm

abbrev busy_tick : Tick
busy_tick = record {
  woken = false;
  arrived = load_script script_b ∷ update_script script_a ∷ unload_scripts (script_b ∷ []) ∷ [];
  engine_tick = engine_pending;
}

ticks-Once_example :
    Once
      (ticks engine (busy_tick ∷ busy_tick ∷ []) (record {
        vm = load_all engine (script_a ∷ script_b ∷ []) empty_vm;
        rx = [];
        completed = false;
      })).vm.ran
ticks-Once_example =
    ticks-Once engine (busy_tick ∷ busy_tick ∷ []) (script_a ∷ script_b ∷ []) [] empty_vm

abbrev events : List Event
events = ("MESSAGE_CREATE", discord_event 5, 8) ∷ ("GUILD_UPDATE", discord_event 6, 9) ∷ []

abbrev machine : WorkerState
machine = record { guild_id = 7; load_scripts = []; scripts_vm = []; told_to_shut_down = false }

abbrev vm_worker : VmWorker
vm_worker = record VmWorker.new { current_state = some machine }

abbrev session : VmSession
session = record (VmSession.new 7 unknown) {
  current_worker = some worker;
  pending_acks = (9, dispatch none) ∷ (8, dispatch (some 4)) ∷ [];
}

idle-Returns_example :
    (w' : VmWorker) × (run none
        (inputs 7 (ticks engine (quiet_ticks 4) (waiting events false empty_vm)).vm.events)
        vm_worker
      ≡ some w')
    × Returns env worker (drain_inbox env w'.sent session)
idle-Returns_example =
    idle-Returns engine none env 4 7 events empty_vm vm_worker machine worker session (omega arith)
      refl refl refl refl refl refl refl (((_, refl), inr (inl refl)), (((_, refl), inl refl), tt))
