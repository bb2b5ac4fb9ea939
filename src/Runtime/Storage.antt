-- ===== src/Runtime/Storage.antt =====
-- components/runtime/src/extensions/storage.rs: which writes are let through. The scripts' calls
-- interleave where one waits, so a call is several steps: it begins, and may end at once; one that does
-- the check ends when the store answers; and one that waits for the check of another looks every 100 ms.
-- Deletions lift the mark that the limit was hit.
use botloader.Prelude.{
  ℕ, zero, suc, ◌-◌, Bool, true, false, not, Option, none, some, List, [], ◌∷◌, ltb, leb,
  if◌then◌else◌,
}

pub record StorageState : Type 0 where
  pub requests_until_limit_check : ℕ
  pub doing_limit_check : Bool
  pub hit_limit : Bool

abbrev pub new : StorageState
new = record { requests_until_limit_check = 0; doing_limit_check = false; hit_limit = false }

-- What a call does when it begins.
pub data Begun : Type 0 where
  granted refused checking waiting : Begun

unfoldable pub begin_write : StorageState → StorageState × Begun
begin_write s =
    if s.doing_limit_check
    then (s, waiting)
    else if s.hit_limit
    then (s, refused)
    else elim s.requests_until_limit_check [
      | zero ↦ (record s { doing_limit_check = true }, checking)
      | suc n ↦ (record s { requests_until_limit_check = n }, granted)
    ]

-- The store's answer is what the guild uses, or an error. Whether the write goes through.
unfoldable pub finish_check : ℕ → Option ℕ → StorageState → StorageState × Bool
finish_check limit none s = (record s { doing_limit_check = false }, false)
finish_check limit (some used) s =
    if leb limit used
    then (record s { doing_limit_check = false; hit_limit = true }, false)
    else (record s { doing_limit_check = false; requests_until_limit_check = 10 }, true)

-- The look of a call that waits: none if it goes on waiting.
unfoldable pub wake : StorageState → Option Bool
wake s = if s.doing_limit_check then none else some (not s.hit_limit)

-- `op_botloader_bucket_storage_del` and `_del_many`, by the number of entries that they deleted.
unfoldable pub deleted : ℕ → StorageState → StorageState
deleted zero s = s
deleted (suc n) s = record s { hit_limit = false }

-- `check_validate_key_len`, and `check_validate_value_len` for a value that is kept as text.
unfoldable pub check_validate_key_len : ℕ → Bool
check_validate_key_len n = not (ltb 256 n)

unfoldable pub check_validate_value_len : Option ℕ → Bool
check_validate_value_len none = true
check_validate_value_len (some n) = not (ltb 1000000 n)

-- How many entries a list asks the store for.
unfoldable pub list_limit : Option ℕ → ℕ
list_limit none = 25
list_limit (some limit) = if ltb limit 100 then limit else 100

-- The calls of a guild's scripts: those that check and those that wait, with the numbers of writes that
-- were let through at once and after a wait, and of checks that went well.
pub record Calls : Type 0 where
  pub state : StorageState
  pub checkers : ℕ
  pub waiters : ℕ
  pub fast : ℕ
  pub after_wait : ℕ
  pub good_checks : ℕ

abbrev pub no_calls : Calls
no_calls = record {
  state = new;
  checkers = 0;
  waiters = 0;
  fast = 0;
  after_wait = 0;
  good_checks = 0;
}

pub data Event : Type 0 where
  begins : Event
  answers : Option ℕ → Event
  looks : Event
  deletes : ℕ → Event

abbrev pub begun : StorageState → Begun → Calls → Calls
begun s granted c = record c { state = s; fast = suc c.fast }
begun s refused c = record c { state = s }
begun s checking c = record c { state = s; checkers = suc c.checkers }
begun s waiting c = record c { state = s; waiters = suc c.waiters }

abbrev pub checked : StorageState → Bool → Calls → Calls
checked s ok c = record c {
  state = s;
  checkers = c.checkers - 1;
  good_checks = if ok then suc c.good_checks else c.good_checks;
}

-- One call at most can be at a step of the kind that comes, so it does nothing if there is none.
unfoldable pub step : ℕ → Event → Calls → Calls
unfolding begin_write finish_check wake deleted
step limit begins c = let (s, b) = begin_write c.state in begun s b c
step limit (answers usage) c = elim c.checkers [
  | zero ↦ c
  | suc n ↦ let (s, ok) = finish_check limit usage c.state in checked s ok c
]
step limit looks c = elim c.waiters [
  | zero ↦ c
  | suc n ↦ elim (wake c.state) [
    | none ↦ c
    | some true ↦ record c { waiters = n; after_wait = suc c.after_wait }
    | some false ↦ record c { waiters = n }
  ]
]
step limit (deletes n) c = record c { state = deleted n c.state }

unfoldable pub steps : ℕ → List Event → Calls → Calls
unfolding step
steps limit [] c = c
steps limit (e ∷ es) c = steps limit es (step limit e c)
