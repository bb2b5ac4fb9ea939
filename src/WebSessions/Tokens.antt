-- ===== src/WebSessions/Tokens.antt =====
-- components/stores/src/inmemory/web.rs: the search for sessions and tokens by their text.

use text.Mathlib.TextEquality.{eq_iff}
use botloader.Prelude.{
  ℕ, ◌≡◌, ◌≢◌, refl, sym, ap, ◌∙◌, subst, true, none, some, List, [], ◌∷◌, ◌++◌, keep, String,
  arith, Bool-cases, Option-cases, inl, inr,
}
use botloader.WebSessions.{
  BareSession, same_token, find_session, remove_session, free_token, sessions_of,
}

pub same_token-eq : (s t : String) → same_token s t ≡ true → s ≡ t
same_token-eq s t e = (eq_iff s t).0 e

pub same_token_refl : (s : String) → same_token s s ≡ true
same_token_refl s = (eq_iff s s).1 refl

found_first :
    (s b : BareSession) (ss : List BareSession) (t : String)
    → find_session t (s ∷ ss) ≡ some b
    → same_token s.token t ≡ true
    → s ≡ b
unfolding find_session
found_first s b ss t e q = ground (arith, e, q)

pub find_session-token :
    (t : String) (ss : List BareSession) (b : BareSession)
    → find_session t ss ≡ some b
    → b.token ≡ t
unfolding find_session
find_session-token t [] b e = absurd (ground (arith, e))
find_session-token t (s ∷ ss) b e = elim (Bool-cases (same_token s.token t)) [
  | inl q ↦
      subst (λ (x : BareSession). x.token ≡ t) (found_first s b ss t e q)
        (same_token-eq s.token t q)
  | inr q ↦ find_session-token t ss b (ground (arith, e, q))
]

-- Users other than the session's keep theirs when it is removed.
pub remove_session-others :
    (t : String) (v : ℕ) (ss : List BareSession) (b : BareSession)
    → find_session t ss ≡ some b
    → b.user ≢ v
    → sessions_of v (remove_session t ss) ≡ sessions_of v ss
unfolding find_session remove_session sessions_of keep
remove_session-others t v [] b e n = refl
remove_session-others t v (s ∷ ss) b e n = elim (Bool-cases (same_token s.token t)) [
  | inl q ↦
      let u : s.user ≢ v = λ w. n (ap (λ x. x.user) (sym (found_first s b ss t e q)) ∙ w) in
      ground (arith, q, u)
  | inr q ↦ ground (arith, q, remove_session-others t v ss b (ground (arith, e, q)) n)
]

pub free_token-find_session :
    (ts : List String) (ss : List BareSession) (t : String)
    → free_token ts ss ≡ some t
    → find_session t ss ≡ none
unfolding free_token
free_token-find_session [] ss t e = absurd (ground (arith, e))
free_token-find_session (x ∷ xs) ss t e = elim (Option-cases (find_session x ss)) [
  | inl q ↦ subst (λ y. find_session y ss ≡ none) (ground (arith, e, q)) q
  | inr (b, q) ↦ free_token-find_session xs ss t (ground (arith, e, q))
]

pub find_session-snoc :
    (ss : List BareSession) (b : BareSession)
    → find_session b.token ss ≡ none
    → find_session b.token (ss ++ b ∷ []) ≡ some b
unfolding find_session
find_session-snoc [] b e = ground (arith, same_token_refl b.token)
find_session-snoc (s ∷ ss) b e = elim (Bool-cases (same_token s.token b.token)) [
  | inl q ↦ absurd (ground (arith, e, q))
  | inr q ↦ ground (arith, q, find_session-snoc ss b (ground (arith, e, q)))
]

pub remove_session-snoc :
    (ss : List BareSession) (b : BareSession)
    → find_session b.token ss ≡ none
    → remove_session b.token (ss ++ b ∷ []) ≡ ss
unfolding find_session remove_session
remove_session-snoc [] b e = ground (arith, same_token_refl b.token)
remove_session-snoc (s ∷ ss) b e = elim (Bool-cases (same_token s.token b.token)) [
  | inl q ↦ absurd (ground (arith, e, q))
  | inr q ↦ ground (arith, q, remove_session-snoc ss b (ground (arith, e, q)))
]
