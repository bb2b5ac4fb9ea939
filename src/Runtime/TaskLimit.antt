-- ===== src/Runtime/TaskLimit.antt =====
-- `op_bl_schedule_task` of components/runtime/src/extensions/tasks.rs: how many tasks a guild gets.
use botloader.Prelude.{ℕ, zero, suc, true, some, List, [], ◌∷◌, leb, if◌then◌else◌}
use botloader.Runtime.{TaskAsk}

-- A request for a task that is new to the store, with that many bytes of data.
abbrev pub new_ask : ℕ → TaskAsk
new_ask data_len = record { data_len = data_len; counts = true; created = some true }

-- So many such requests.
abbrev pub same_asks : ℕ → ℕ → List TaskAsk
same_asks zero data_len = []
same_asks (suc n) data_len = new_ask data_len ∷ same_asks n data_len

abbrev pub least : ℕ → ℕ → ℕ
least m n = if leb m n then m else n
