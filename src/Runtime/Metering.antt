-- ===== src/Runtime/Metering.antt =====
-- components/runtime/src/extensions/storage.rs: how many writes go through between two checks.
use botloader.Prelude.{
  ℕ, zero, suc, ◌+◌, ◌*◌, ◌≤◌, ◌≡◌, refl, sym, ap, subst, ◌∙◌, Bool, true, false, Option, none,
  some, List, [], ◌∷◌, All, leb, if◌then◌else◌, arith,
}
use botloader.Runtime.Storage.{
  StorageState, checked, begin_write, finish_check, wake, deleted, Calls, no_calls, Event, begins,
  answers, looks, deletes, step, steps,
}

-- The state of the calls, written out.
abbrev calls : ℕ → Bool → Bool → ℕ → ℕ → ℕ → ℕ → ℕ → Calls
calls requests doing hit checkers waiters fast after_wait good = record {
  state = record {
    requests_until_limit_check = requests;
    doing_limit_check = doing;
    hit_limit = hit;
  };
  checkers = checkers;
  waiters = waiters;
  fast = fast;
  after_wait = after_wait;
  good_checks = good;
}

-- A call does the check exactly while the check is marked, and nothing is let through at once then.
abbrev Marked : StorageState → ℕ → Type 0
Marked s checkers =
    if s.doing_limit_check
    then (checkers ≡ 1) × (s.requests_until_limit_check ≡ 0) × (s.hit_limit ≡ false)
    else checkers ≡ 0

abbrev pub IsMetered : Calls → Type 0
IsMetered c =
    Marked c.state c.checkers
    × (c.fast + c.state.requests_until_limit_check ≡ 10 * c.good_checks)
    × (c.state.hit_limit ≡ true → c.state.requests_until_limit_check ≡ 0)

begins-IsMetered :
    (limit requests : ℕ) (doing hit : Bool) (k w f a g : ℕ)
    → IsMetered (calls requests doing hit k w f a g)
    → IsMetered (step limit begins (calls requests doing hit k w f a g))
unfolding step begin_write
begins-IsMetered limit requests true hit k w f a g v = v
begins-IsMetered limit requests false true k w f a g v = v
begins-IsMetered limit zero false false k w f a g (m, e, h) = ((omega (arith, m), refl, refl), e, h)
begins-IsMetered limit (suc r) false false k w f a g (m, e, h) =
    (m, omega (arith, e), λ b. ground (arith, b))

answered :
    (bad : Bool) (k w f a g requests : ℕ) (hit : Bool)
    → IsMetered (calls requests true hit (suc k) w f a g)
    → let s : StorageState = record {
      requests_until_limit_check = requests;
      doing_limit_check = true;
      hit_limit = hit;
    } in
      let p : StorageState × Bool =
        (if bad
          then (record s { doing_limit_check = false; hit_limit = true }, false)
          else (record s { doing_limit_check = false; requests_until_limit_check = 10 }, true)) in
      IsMetered (checked p.0 p.1 (calls requests true hit (suc k) w f a g))
answered true k w f a g requests hit (m, e, h) = (omega (arith, m.0), e, λ b. m.1)
answered false k w f a g requests hit (m, e, h) =
    (omega (arith, m.0), omega (arith, m.1, e), λ b. ground (arith, b, m.2))

answers-IsMetered :
    (limit : ℕ) (usage : Option ℕ) (requests : ℕ) (doing hit : Bool) (k w f a g : ℕ)
    → IsMetered (calls requests doing hit k w f a g)
    → IsMetered (step limit (answers usage) (calls requests doing hit k w f a g))
unfolding step finish_check
answers-IsMetered limit usage requests doing hit zero w f a g v = v
answers-IsMetered limit usage requests false hit (suc k) w f a g (m, e, h) =
    absurd (omega (arith, m))
answers-IsMetered limit none requests true hit (suc k) w f a g (m, e, h) =
    (omega (arith, m.0), e, h)
answers-IsMetered limit (some used) requests true hit (suc k) w f a g v =
    answered (leb limit used) k w f a g requests hit v

looks-IsMetered :
    (limit requests : ℕ) (doing hit : Bool) (k w f a g : ℕ)
    → IsMetered (calls requests doing hit k w f a g)
    → IsMetered (step limit looks (calls requests doing hit k w f a g))
unfolding step wake
looks-IsMetered limit requests doing hit k zero f a g v = v
looks-IsMetered limit requests true hit k (suc w) f a g v = v
looks-IsMetered limit requests false true k (suc w) f a g v = v
looks-IsMetered limit requests false false k (suc w) f a g v = v

deletes-IsMetered :
    (limit n requests : ℕ) (doing hit : Bool) (k w f a g : ℕ)
    → IsMetered (calls requests doing hit k w f a g)
    → IsMetered (step limit (deletes n) (calls requests doing hit k w f a g))
unfolding step deleted
deletes-IsMetered limit zero requests doing hit k w f a g v = v
deletes-IsMetered limit (suc n) requests true hit k w f a g (m, e, h) =
    ((m.0, m.1, refl), e, λ b. ground (arith, b))
deletes-IsMetered limit (suc n) requests false hit k w f a g (m, e, h) =
    (m, e, λ b. ground (arith, b))

step-IsMetered : (limit : ℕ) (e : Event) (c : Calls) → IsMetered c → IsMetered (step limit e c)
step-IsMetered limit begins c v =
    begins-IsMetered limit c.state.requests_until_limit_check c.state.doing_limit_check
      c.state.hit_limit c.checkers c.waiters c.fast c.after_wait c.good_checks v
step-IsMetered limit (answers usage) c v =
    answers-IsMetered limit usage c.state.requests_until_limit_check c.state.doing_limit_check
      c.state.hit_limit c.checkers c.waiters c.fast c.after_wait c.good_checks v
step-IsMetered limit looks c v =
    looks-IsMetered limit c.state.requests_until_limit_check c.state.doing_limit_check
      c.state.hit_limit c.checkers c.waiters c.fast c.after_wait c.good_checks v
step-IsMetered limit (deletes n) c v =
    deletes-IsMetered limit n c.state.requests_until_limit_check c.state.doing_limit_check
      c.state.hit_limit c.checkers c.waiters c.fast c.after_wait c.good_checks v

steps-IsMetered :
    (limit : ℕ) (es : List Event) (c : Calls) → IsMetered c → IsMetered (steps limit es c)
unfolding steps
steps-IsMetered limit [] c v = v
steps-IsMetered limit (e ∷ es) c v =
    steps-IsMetered limit es (step limit e c) (step-IsMetered limit e c v)

at_most_one : (c : Calls) → IsMetered c → c.checkers ≤ 1
at_most_one c v = marked c.state c.checkers v.0
  where
    marked : (s : StorageState) (k : ℕ) → Marked s k → k ≤ 1
    marked s k m = ground (arith, m)

-- However the writes of a guild's scripts interleave, with whatever answers of the store and deletions
-- between them, at most one asks the store how much is used at any time, and for each check that finds
-- room exactly ten writes go through at once, those still allowed counted.
pub steps-metered :
    (limit : ℕ) (es : List Event)
    → let c = steps limit es no_calls in
      (c.checkers ≤ 1) × (c.fast + c.state.requests_until_limit_check ≡ 10 * c.good_checks)
steps-metered limit es =
    let v : IsMetered (steps limit es no_calls) =
      steps-IsMetered limit es no_calls (refl, refl, λ e. refl) in
    (at_most_one (steps limit es no_calls) v, v.1)

abbrev pub NoDeletion : Event → Type 0
NoDeletion (deletes n) = ⊥
NoDeletion _ = Unit

-- What went through, and that the limit is known to be hit.
abbrev Refuses : Calls → Calls → Type 0
Refuses c c' =
    (c'.state.hit_limit ≡ true)
    × (c'.state.doing_limit_check ≡ false)
    × (c'.checkers ≡ 0)
    × (c'.fast ≡ c.fast)
    × (c'.after_wait ≡ c.after_wait)

step-Refuses :
    (limit : ℕ) (e : Event) (requests w f a g : ℕ)
    → NoDeletion e
    → Refuses
        (calls requests false true 0 w f a g)
        (step limit e (calls requests false true 0 w f a g))
unfolding step begin_write wake
step-Refuses limit begins requests w f a g n = (refl, refl, refl, refl, refl)
step-Refuses limit (answers usage) requests w f a g n = (refl, refl, refl, refl, refl)
step-Refuses limit looks requests zero f a g n = (refl, refl, refl, refl, refl)
step-Refuses limit looks requests (suc w) f a g n = (refl, refl, refl, refl, refl)
step-Refuses limit (deletes n') requests w f a g n = absurd n

shape :
    (c : Calls)
    → c.state.hit_limit ≡ true
    → c.state.doing_limit_check ≡ false
    → c.checkers ≡ 0
    → c
      ≡ calls c.state.requests_until_limit_check false true 0 c.waiters c.fast c.after_wait
          c.good_checks
shape c h d k =
    let r : ℕ = c.state.requests_until_limit_check in
    ap (λ b. calls r b c.state.hit_limit c.checkers c.waiters c.fast c.after_wait c.good_checks) d
    ∙ ap (λ b. calls r false b c.checkers c.waiters c.fast c.after_wait c.good_checks) h
    ∙ ap (λ n. calls r false true n c.waiters c.fast c.after_wait c.good_checks) k

step_next :
    (limit : ℕ) (e : Event) (c : Calls) → NoDeletion e → Refuses c c → Refuses c (step limit e c)
step_next limit e c n (h, d, k, f, a) =
    subst (λ x. Refuses x (step limit e x)) (sym (shape c h d k))
      (step-Refuses limit e c.state.requests_until_limit_check c.waiters c.fast c.after_wait
        c.good_checks n)

-- While the limit is known to be hit and no check is under way, no write goes through, neither at once
-- nor after a wait, until something is deleted.
pub steps-refused :
    (limit : ℕ) (es : List Event) (c : Calls)
    → c.state.hit_limit ≡ true
    → c.state.doing_limit_check ≡ false
    → c.checkers ≡ 0
    → All NoDeletion es
    → let c' = steps limit es c in
      (c'.fast ≡ c.fast) × (c'.after_wait ≡ c.after_wait) × (c'.state.hit_limit ≡ true)
unfolding steps
steps-refused limit [] c h d k n = (refl, refl, h)
steps-refused limit (e ∷ es) c h d k n =
    let (h', d', k', f, a) = step_next limit e c n.0 (h, d, k, refl, refl) in
    let (f', a', h'') = steps-refused limit es (step limit e c) h' d' k' n.1 in
    (f' ∙ f, a' ∙ a, h'')
