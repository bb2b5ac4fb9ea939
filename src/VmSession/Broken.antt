-- ===== src/VmSession/Broken.antt =====
-- cmd/scheduler/src/vm_session.rs: what `broken_worker` does with the messages that the worker left.
use botloader.Prelude.{
  ◌≡◌, refl, ◌∙◌, ap, false, none, some, List, [], ◌∷◌, ◌++◌, Option-cases, inl, inr, arith,
}
use botloader.VmSession.{
  ShutdownReason, WorkerMessage, shutdown_message, Worker, Env, VmSession, Offers, gen_id,
  handle_worker_msg, drain_inbox, broken_worker, load_contribs,
}

shutdown-panics :
    (env : Env) (reason : ShutdownReason) (s : VmSession)
    → handle_worker_msg env (shutdown_message reason) s ≡ none
unfolding handle_worker_msg
shutdown-panics env reason s = refl

drain_inbox-shutdown :
    (env : Env) (before after : List WorkerMessage) (reason : ShutdownReason) (s : VmSession)
    → drain_inbox env (before ++ shutdown_message reason ∷ after) s ≡ none
unfolding drain_inbox
drain_inbox-shutdown env [] after reason s = rw (shutdown-panics env reason s) refl
drain_inbox-shutdown env (msg ∷ before) after reason s =
    elim (Option-cases (handle_worker_msg env msg s)) [
      | inl e ↦ rw e
      | inr (s', e) ↦ rw e (drain_inbox-shutdown env before after reason s')
    ]

broken_worker-none :
    (env : Env) (s : VmSession) (worker : Worker)
    → s.current_worker ≡ some worker
    → drain_inbox env worker.inbox (record s { current_worker = none }) ≡ none
    → broken_worker env s ≡ none
unfolding broken_worker
broken_worker-none env s worker w e = ground (arith, w, e)

load_contribs-broken :
    (env : Env) (offers : Offers) (s : VmSession) (worker : Worker)
    → s.current_worker ≡ some worker
    → worker.is_open ≡ false
    → broken_worker env (gen_id s) ≡ none
    → load_contribs env offers s ≡ none
unfolding load_contribs
load_contribs-broken env offers s worker w o e = ground (arith, w, o, e)

-- A reload of the scripts panics when the worker has gone after it sent the reason for its shutdown
-- and the session did not read that message before: the messages that it left are handled by code
-- that takes no such message. The messages before it are handled, so that the reload fails at this one, which
-- panics whatever the stores answer, and not in a wait for a store.
pub load_contribs-panics :
    (env : Env) (offers : Offers) (before after : List WorkerMessage) (reason : ShutdownReason)
    (s s' : VmSession) (worker : Worker)
    → s.current_worker ≡ some worker
    → worker.is_open ≡ false
    → worker.inbox ≡ before ++ shutdown_message reason ∷ after
    → drain_inbox env before (record (gen_id s) { current_worker = none }) ≡ some s'
    → ((later : Env) → handle_worker_msg later (shutdown_message reason) s' ≡ none)
      × (load_contribs env offers s ≡ none)
load_contribs-panics env offers before after reason s s' worker w o e handled = (
  λ later. shutdown-panics later reason s',
  load_contribs-broken env offers s worker w o (
      broken_worker-none env (gen_id s) worker w (
        ap (λ msgs. drain_inbox env msgs (record (gen_id s) { current_worker = none })) e
        ∙ drain_inbox-shutdown env before after reason
            (record (gen_id s) { current_worker = none }))),
)
