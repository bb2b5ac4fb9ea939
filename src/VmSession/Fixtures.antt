-- ===== src/VmSession/Fixtures.antt =====
-- A worker of the pool and the answers of a session's surroundings, for the examples.
use botloader.Prelude.{true, none, some, [], ◌∷◌}
use botloader.WorkerPool.{WorkerHandle}
use botloader.VmSession.{Worker, Env}

abbrev pub handle : WorkerHandle
handle = record {
  last_active_guild = none;
  returned_at = 0;
  claimed_at = 0;
  worker_id = 2;
  priority_index = 0;
}

abbrev pub worker : Worker
worker = record { handle = handle; is_open = true; sent = []; inbox = [] }

abbrev pub env : Env
env = record {
  now = 100;
  parse = λ expression. none;
  update_timer = λ timer. some timer;
  all_timers = some [];
  delete_answers = true ∷ [];
  triggered_tasks = λ now ignored names. some [];
}
