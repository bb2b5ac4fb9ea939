-- ===== src/WorkerPool/Oldest.antt =====
-- The scans of one vector in `inner_get_worker` of cmd/scheduler/src/vmworkerpool.rs, and the loops
-- over the tiers around them.
use botloader.Prelude.{
  remove_at, ℕ, zero, suc, ◌+◌, ◌-◌, ◌≤◌, ◌<◌, ◌≡◌, refl, subst, ◌≢◌, ◌⊎◌, inl, inr, true, false,
  Option, none, some, List, [], ◌∷◌, All, arith, ltb, Bool-cases, Option-cases,
}
use botloader.WorkerPool.{
  WorkerHandle, is_guild, same_guild_index, oldest_from, oldest_index, scan_tiers,
}

-- Removing at an index of the vector succeeds.
pub record At (ws : List WorkerHandle) (k : ℕ) : Type 0 where
  pub worker : WorkerHandle
  pub rest : List WorkerHandle
  pub removed : remove_at ws k ≡ some (worker, rest)

At-suc : (w : WorkerHandle) (ws : List WorkerHandle) (k : ℕ) → At ws k → At (w ∷ ws) (suc k)
unfolding remove_at
At-suc w ws k a = record {
  worker = a.worker;
  rest = w ∷ a.rest;
  removed = rw (a.removed, remove_at);
}

module _ (clock : ℕ → ℕ) where
  -- No worker has waited longer than `age` when the scan, at index `i`, reads the clock for it.
  abbrev pub AtMost : ℕ → ℕ → List WorkerHandle → Type 0
  AtMost i age [] = Unit
  AtMost i age (w ∷ ws) = (clock i - w.returned_at ≤ age) × AtMost (suc i) age ws

  AtMost-mono : (i : ℕ) {a b : ℕ} (ws : List WorkerHandle) → a ≤ b → AtMost i a ws → AtMost i b ws
  AtMost-mono i [] h m = tt
  AtMost-mono i (w ∷ ws) h m = (omega arith, AtMost-mono (suc i) ws h m.1)

  -- The worker at index `k` has waited longest, where the scan starts to count at `i`.
  pub record Best (i j : ℕ) (ws : List WorkerHandle) : Type 0 where
    pub k : ℕ
    pub j_eq : j ≡ i + k
    pub here : At ws k
    pub longest : AtMost i (clock j - here.worker.returned_at) ws

  abbrev Outcome : ℕ → ℕ → ℕ → List WorkerHandle → Option ℕ → Type 0
  Outcome i c age ws r =
      ((r ≡ some c) × AtMost i age ws)
      ⊎ ((j : ℕ) × (b : Best i j ws) × (r ≡ some j) × (age ≤ clock j - b.here.worker.returned_at))

  Outcome-suc :
      (i c age : ℕ) (w : WorkerHandle) (ws : List WorkerHandle) {r : Option ℕ}
      → clock i - w.returned_at ≤ age
      → Outcome (suc i) c age ws r
      → Outcome i c age (w ∷ ws) r
  unfolding At-suc
  Outcome-suc i c age w ws h (inl (e, m)) = inl (e, (h, m))
  Outcome-suc i c age w ws h (inr (j, b, e, m)) = inr (
    j,
    record {
      k = suc b.k;
      j_eq = omega (arith, b.j_eq);
      here = At-suc w ws b.k b.here;
      longest = (omega arith, b.longest);
    },
    e,
    m,
  )

  Outcome-first :
      (i age : ℕ) (w : WorkerHandle) (ws : List WorkerHandle) {r : Option ℕ}
      → age ≤ clock i - w.returned_at
      → Outcome (suc i) i (clock i - w.returned_at) ws r
      → (j : ℕ) × (b : Best i j (w ∷ ws)) × (r ≡ some j)
        × (age ≤ clock j - b.here.worker.returned_at)
  unfolding remove_at At-suc
  Outcome-first i age w ws h (inl (e, m)) = (
    i,
    record {
      k = 0;
      j_eq = omega arith;
      here = record { worker = w; rest = ws; removed = refl };
      longest = (omega arith, m);
    },
    e,
    h,
  )
  Outcome-first i age w ws h (inr (j, b, e, m)) = (
    j,
    record {
      k = suc b.k;
      j_eq = omega (arith, b.j_eq);
      here = At-suc w ws b.k b.here;
      longest = (m, b.longest);
    },
    e,
    omega arith,
  )

  oldest_from-Outcome :
      (i c age : ℕ) (ws : List WorkerHandle)
      → Outcome i c age ws (oldest_from clock i (some c) age ws)
  unfolding oldest_from
  oldest_from-Outcome i c age [] = inl (refl, tt)
  oldest_from-Outcome i c age (w ∷ ws) = elim (Bool-cases (ltb age (clock i - w.returned_at))) [
    | inl e ↦ rw e (
        inr (
          Outcome-first i age w ws (ground arith)
            (oldest_from-Outcome (suc i) i (clock i - w.returned_at) ws)))
    | inr e ↦ rw e (Outcome-suc i c age w ws (ground arith) (oldest_from-Outcome (suc i) c age ws))
  ]

  -- The scan chooses no worker of an empty vector only, and otherwise one that has waited longest.
  pub oldest_index_cases :
      (ws : List WorkerHandle)
      → ((ws ≡ []) × (oldest_index clock ws ≡ none))
        ⊎ ((j : ℕ) × Best 0 j ws × (oldest_index clock ws ≡ some j))
  unfolding oldest_index
  oldest_index_cases [] = inl (refl, refl)
  oldest_index_cases (w ∷ ws) =
      let (j, b, e, _) =
        Outcome-first 0 0 w ws (omega arith)
          (oldest_from-Outcome 1 0 (clock 0 - w.returned_at) ws) in
      inr (j, b, e)

-- No worker of the vector last ran the guild.
abbrev pub NoGuild : ℕ → List WorkerHandle → Type 0
NoGuild g ws = All (λ w. w.last_active_guild ≢ some g) ws

is_guild-true : (g : ℕ) (o : Option ℕ) → is_guild g o ≡ true → o ≡ some g
is_guild-true g none h = cc
is_guild-true g (some x) h = ground arith

is_guild-false : (g : ℕ) (o : Option ℕ) → is_guild g o ≡ false → o ≢ some g
is_guild-false g none h e = cc
is_guild-false g (some x) h e = ground arith

-- The scan for the guild chooses nothing only where no worker last ran it.
pub same_guild_index_cases :
    (g : ℕ) (ws : List WorkerHandle)
    → ((same_guild_index g ws ≡ none) × NoGuild g ws)
      ⊎ ((j : ℕ) × (a : At ws j) × (same_guild_index g ws ≡ some j)
          × (a.worker.last_active_guild ≡ some g))
unfolding same_guild_index remove_at At-suc
same_guild_index_cases g [] = inl (refl, tt)
same_guild_index_cases g (w ∷ ws) = elim (Bool-cases (is_guild g w.last_active_guild)) [
  | inl e ↦ inr (0, record { worker = w; rest = ws; removed = refl }, rw e, is_guild-true g _ e)
  | inr e ↦ elim (same_guild_index_cases g ws) [
    | inl (p, q) ↦ inl (rw (e, p), (is_guild-false g _ e, q))
    | inr (j, a, p, q) ↦ inr (suc j, At-suc w ws j a, rw (e, p), q)
  ]
]

module _ (pick : List WorkerHandle → Option ℕ) (pools : ℕ → List WorkerHandle) where
  abbrev pub Finds : ℕ → Option (ℕ × ℕ) → Type 0
  Finds own r =
      ((r ≡ none) × ((u : ℕ) → u ≤ own → pick (pools u) ≡ none))
      ⊎ ((t : ℕ) × (j : ℕ) × (r ≡ some (t, j))
          × (t ≤ own)
          × (pick (pools t) ≡ some j)
          × ((u : ℕ) → t < u → u ≤ own → pick (pools u) ≡ none))

  at_most_suc : (P : ℕ → Type 0) (own u : ℕ) → P (suc own) → (u ≤ own → P u) → u ≤ suc own → P u
  at_most_suc P own u p q h = elim (Bool-cases (ltb own u)) [
    | inl e ↦ let same : suc own ≡ u = ground arith in subst P same p
    | inr e ↦ q (ground arith)
  ]

  -- The loop finds the highest tier, at most the request's, at which the choice succeeds.
  pub scan_tiers-Finds : (own : ℕ) → Finds own (scan_tiers pick pools own)
  unfolding scan_tiers
  scan_tiers-Finds zero = elim (Option-cases (pick (pools 0))) [
    | inl e ↦ inl (
      rw (e, scan_tiers),
      λ u h. let z : 0 ≡ u = omega arith in subst (λ v. pick (pools v) ≡ none) z e,
    )
    | inr (j, e) ↦ inr (0, j, rw (e, scan_tiers), omega arith, e, λ u h k. absurd (omega arith))
  ]
  scan_tiers-Finds (suc own) = elim (Option-cases (pick (pools (suc own)))) [
    | inl e ↦ elim (scan_tiers-Finds own) [
      | inl (p, q) ↦
          inl
            (rw (e, scan_tiers, p), λ u h. at_most_suc (λ v. pick (pools v) ≡ none) own u e (q u) h)
      | inr (t, j, p, q, r, s) ↦ inr (
        t,
        j,
        rw (e, scan_tiers, p),
        omega arith,
        r,
        λ u k h. at_most_suc (λ v. pick (pools v) ≡ none) own u e (s u k) h,
      )
    ]
    | inr (j, e) ↦
        inr (suc own, j, rw (e, scan_tiers), omega arith, e, λ u h k. absurd (omega arith))
  ]
