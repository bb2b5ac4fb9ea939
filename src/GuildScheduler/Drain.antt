-- ===== src/GuildScheduler/Drain.antt =====
-- The searches and removals in `check_queue_start_worker` of cmd/scheduler/src/scheduler.rs.
use botloader.Prelude.{
  ℕ, suc, ◌≡◌, refl, Bool, not, Option, none, some, List, [], ◌∷◌, ◌++◌, keep, remove_at, map,
  arith, ◌==◌, if◌then◌else◌, Bool-cases, Option-cases, inl, inr,
}
use mathlib.Core.List.{reverse, reverse-cons, reverse-reverse, map-append}

-- The first occurrence taken out, or none.
unfoldable pub remove_first : ℕ → List ℕ → Option (List ℕ)
remove_first g [] = none
remove_first g (x ∷ xs) =
    let rest : Option (List ℕ) = elim (remove_first g xs) [
      | none ↦ none
      | some ys ↦ some (x ∷ ys)
    ] in
    if x == g then some xs else rest

module _ {ℓ} {A : Type ℓ} (p : A → Bool) where
  -- The indexes of the entries that pass the test, counted from `i`.
  unfoldable pub indexes_from : ℕ → List A → List ℕ
  indexes_from i [] = []
  indexes_from i (x ∷ xs) = let rest = indexes_from (suc i) xs in if p x then i ∷ rest else rest

module _ {ℓ} {A : Type ℓ} where
  -- `indexes.into_iter().map(|i| v.remove(i))`: the entries removed, and what is left.
  unfoldable pub remove_each : List ℕ → List A → Option (List A × List A)
  remove_each [] xs = some ([], xs)
  remove_each (i ∷ is) xs = elim (remove_at xs i) [
    | none ↦ none
    | some (y, rest) ↦ elim (remove_each is rest) [
      | none ↦ none
      | some (ys, left) ↦ some (y ∷ ys, left)
    ]
  ]

  unfoldable pub drain : (A → Bool) → List A → Option (List A × List A)
  drain p xs = elim (remove_each (reverse (indexes_from p 0 xs)) xs) [
    | none ↦ none
    | some (ys, left) ↦ some (reverse ys, left)
  ]

map-reverse : (is : List ℕ) → reverse (map suc is) ≡ map suc (reverse is)
map-reverse [] = refl
map-reverse (i ∷ is) =
    rw (reverse-cons (suc i) (map suc is), map-reverse is, reverse-cons i is, map-append)

module _ {ℓ} {A : Type ℓ} where
  abbrev both :
      Option (List A × List A) → (List A → Option (List A × List A)) → Option (List A × List A)
  both none f = none
  both (some (ys, left)) f = elim (f left) [ none ↦ none | some (zs, r) ↦ some (ys ++ zs, r) ]

  abbrev under : A → Option (List A × List A) → Option (List A × List A)
  under x none = none
  under x (some (ys, left)) = some (ys, x ∷ left)

  remove_each-append :
      (is js : List ℕ) (xs : List A)
      → remove_each (is ++ js) xs ≡ both (remove_each is xs) (λ left. remove_each js left)
  unfolding remove_each
  remove_each-append [] js xs = ground arith
  remove_each-append (i ∷ is) js xs = elim (Option-cases (remove_at xs i)) [
    | inl e ↦ rw (e, remove_each)
    | inr ((y, rest), e) ↦ elim (Option-cases (remove_each is rest)) [
      | inl n ↦ ground (arith, remove_each-append is js rest)
      | inr ((ys, left), n) ↦ ground (arith, remove_each-append is js rest)
    ]
  ]

  remove_each-suc :
      (is : List ℕ) (x : A) (xs : List A)
      → remove_each (map suc is) (x ∷ xs) ≡ under x (remove_each is xs)
  unfolding remove_each remove_at
  remove_each-suc [] x xs = refl
  remove_each-suc (i ∷ is) x xs = elim (Option-cases (remove_at xs i)) [
    | inl e ↦ rw (e, remove_each, remove_at)
    | inr ((y, rest), e) ↦ elim (Option-cases (remove_each is rest)) [
      | inl n ↦ ground (arith, remove_each-suc is x rest)
      | inr ((ys, left), n) ↦ ground (arith, remove_each-suc is x rest)
    ]
  ]

  indexes_from-suc :
      (p : A → Bool) (i : ℕ) (xs : List A)
      → indexes_from p (suc i) xs ≡ map suc (indexes_from p i xs)
  unfolding indexes_from
  indexes_from-suc p i [] = refl
  indexes_from-suc p i (x ∷ xs) = ground (arith, indexes_from-suc p (suc i) xs)

  remove_each_kept :
      (p : A → Bool) (xs : List A)
      → remove_each (reverse (indexes_from p 0 xs)) xs
        ≡ some (reverse (keep p xs), keep (λ x. not (p x)) xs)
  unfolding indexes_from keep remove_each remove_at
  remove_each_kept p [] = refl
  remove_each_kept p (x ∷ xs) =
      let is = indexes_from p 0 xs in
      let shifted : remove_each (reverse (indexes_from p 1 xs)) (x ∷ xs)
          ≡ some (reverse (keep p xs), x ∷ keep (λ y. not (p y)) xs) =
        rw (
          indexes_from-suc p 0 xs,
          map-reverse is,
          remove_each-suc (reverse is) x xs,
          remove_each_kept p xs,
        ) in
      elim (Bool-cases (p x)) [
        | inl e ↦ rw (
          e,
          reverse-cons 0 (indexes_from p 1 xs),
          remove_each-append (reverse (indexes_from p 1 xs)) (0 ∷ []) (x ∷ xs),
          shifted,
          reverse-cons x (keep p xs),
        )
        | inr e ↦ rw e shifted
      ]

  -- Removing the matching events one by one, from the back, takes exactly those out. They come out
  -- in their order, the others stay in theirs, and no removal is out of range.
  pub drain-keep :
      (p : A → Bool) (xs : List A) → drain p xs ≡ some (keep p xs, keep (λ x. not (p x)) xs)
  unfolding drain
  drain-keep p xs = rw (remove_each_kept p xs, drain) (rw reverse-reverse)
