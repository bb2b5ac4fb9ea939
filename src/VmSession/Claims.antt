-- ===== src/VmSession/Claims.antt =====
-- cmd/scheduler/src/vm_session.rs: the claim of a worker for scripts that have to be loaded, in
-- `ensure_claim_worker` and `load_contribs`.
use botloader.Prelude.{
  ◌≡◌, refl, sym, subst, true, false, ◌⊎◌, Option, none, some, List, [], ◌∷◌, ◌++◌, Bool-cases, inl,
  inr, arith, is_empty,
}
use botloader.WorkerPool.{WorkerRetrieved}
use botloader.VmSession.{
  SchedulerMessage, Script, Worker, VmSession, Env, Offers, returned, emit, gen_id, reset_contribs,
  should_send_scripts, forget, create_message, claim_worker, ensure_claim_worker, load_contribs,
}

-- A worker that can still be reached is among the offers.
abbrev pub AnyOpen : Offers → Type 0
AnyOpen [] = ⊥
AnyOpen ((worker, wr) ∷ offers) = (worker.is_open ≡ true) ⊎ AnyOpen offers

-- The session holds a worker whose last message loads the session's scripts, and has forgotten all
-- that it knew of an earlier one.
abbrev pub Loaded : List Script → VmSession → Type 0
Loaded scripts s' =
    ((worker : Worker) × (before : List SchedulerMessage) × (s'.current_worker ≡ some worker)
      × (worker.sent ≡ before ++ create_message s' ∷ []))
    × (s'.scripts ≡ scripts)
    × (s'.pending_acks ≡ [])
    × (s'.interval_timers_man.loaded_intervals ≡ [])
    × (s'.interval_timers_man.pending ≡ [])
    × (s'.scheduled_tasks_man.pending ≡ [])
    × (s'.scheduled_tasks_man.task_names ≡ [])
    × (s'.force_load_scripts_next ≡ false)

abbrev pub EnsuresLoaded : List Script → Option (VmSession × Offers) → Type 0
EnsuresLoaded scripts none = ⊥
EnsuresLoaded scripts (some (s', offers)) = Loaded scripts s'

forced :
    (wr : WorkerRetrieved) (s : VmSession)
    → s.force_load_scripts_next ≡ true
    → should_send_scripts wr s ≡ true
unfolding should_send_scripts
forced wr s f = rw f

pub still_open :
    (worker : Worker) (wr : WorkerRetrieved) (offers : Offers)
    → worker.is_open ≡ false
    → AnyOpen ((worker, wr) ∷ offers)
    → AnyOpen offers
still_open worker wr offers e (inl f) = ground (arith, e, f)
still_open worker wr offers e (inr h) = h

claim_worker-Loaded :
    (offers : Offers) (s : VmSession)
    → s.force_load_scripts_next ≡ true
    → AnyOpen offers
    → EnsuresLoaded s.scripts (claim_worker offers s)
unfolding claim_worker forget reset_contribs
claim_worker-Loaded [] s f h = h
claim_worker-Loaded ((worker, wr) ∷ offers) s f h = elim (Bool-cases worker.is_open) [
  | inl e ↦
      simp (forced wr s f, e)
        ((_, worker.sent, refl, refl), refl, refl, refl, refl, refl, refl, refl)
  | inr e ↦
      simp (forced wr s f, e)
        (claim_worker-Loaded offers (emit (returned worker true) (forget s)) f
          (still_open worker wr offers e h))
]

load_contribs-claims :
    (env : Env) (offers : Offers) (s : VmSession)
    → s.current_worker ≡ none
    → is_empty s.scripts ≡ false
    → load_contribs env offers s
      ≡ claim_worker offers (record (reset_contribs (gen_id s)) { force_load_scripts_next = true })
unfolding load_contribs ensure_claim_worker reset_contribs
load_contribs-claims env offers s w n = ground (arith, w, n)

-- A load of the scripts of a session that has some and holds no worker ends once the pool offers a
-- worker that can be reached: the worker that the session then holds got the scripts as its last
-- message, and the acknowledgements and the contributions of before are forgotten.
pub load_contribs-Loaded :
    (env : Env) (offers : Offers) (s : VmSession)
    → s.current_worker ≡ none
    → is_empty s.scripts ≡ false
    → AnyOpen offers
    → EnsuresLoaded s.scripts (load_contribs env offers s)
unfolding reset_contribs
load_contribs-Loaded env offers s w n h =
    subst (EnsuresLoaded s.scripts) (sym (load_contribs-claims env offers s w n)) (
      claim_worker-Loaded offers
        (record (reset_contribs (gen_id s)) { force_load_scripts_next = true }) refl h)
