-- ===== src/VmWorker/Serving.antt =====
-- cmd/vmworker/src/main.rs: what the worker runs after a request for scripts.
use botloader.Prelude.{ℕ, ◌≡◌, false, Option, some, List, [], ◌∷◌, ◌++◌, map, keep, not}
use botloader.WorkerPool.{PremiumSlotTier}
use botloader.VmSession.{Script}
use botloader.VmScripts.{
  VmCommand, dispatch_command, load_script, update_script, unload_scripts, restart, updated, any_id,
}
use botloader.VmWorker.{WorkerState, VmWorker}

-- The scripts of a machine after some commands, if they all compile.
abbrev pub after_commands : List Script → List VmCommand → List Script
after_commands scripts [] = scripts
after_commands scripts (dispatch_command name value seq ∷ cmds) = after_commands scripts cmds
after_commands scripts (restart scripts' ∷ cmds) = after_commands scripts' cmds
after_commands scripts (load_script script ∷ cmds) = after_commands (scripts ++ script ∷ []) cmds
after_commands scripts (update_script script ∷ cmds) =
    after_commands (map (updated script) scripts) cmds
after_commands scripts (unload_scripts gone ∷ cmds) =
    after_commands (keep (λ s. not (any_id s.id gone)) scripts) cmds

-- The worker has that tier and a machine of that guild that it did not tell to shut down, and whose scripts,
-- once it takes the commands that wait for it, are those.
abbrev pub Serves : ℕ → Option PremiumSlotTier → List Script → VmWorker → Type 0
Serves g tier scripts w =
    (w.premium_tier ≡ tier)
    × ((current : WorkerState) × (w.current_state ≡ some current)
        × (current.guild_id ≡ g)
        × (current.told_to_shut_down ≡ false)
        × (after_commands current.load_scripts current.scripts_vm ≡ scripts))
