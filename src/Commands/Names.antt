-- ===== src/Commands/Names.antt =====
-- The names in the lists of cmd/scheduler/src/command_manager.rs that are searched by name.
use text.Mathlib.Text.{◌==◌}
use text.Mathlib.TextEquality.{eq_iff}
use botloader.Prelude.{
  ◌≡◌, refl, ap, ◌⊎◌, ◌∙◌, Bool, true, false, none, some, List, [], ◌∷◌, ◌++◌, map, arith, String,
  if◌then◌else◌, Bool-cases, inl, inr,
}
use mathlib.Core.List.{map-append}
use botloader.Commands.{update_first, update_or_push}

abbrev pub contains_name : String → List String → Bool
contains_name n [] = false
contains_name n (x ∷ xs) = if x == n then true else contains_name n xs

-- The names of the second list that are missing from the first are added at its end, each one once.
abbrev pub add_missing : List String → List String → List String
add_missing known [] = known
add_missing known (x ∷ xs) =
    add_missing (if contains_name x known then known else known ++ x ∷ []) xs

-- No name stands in the list twice.
abbrev pub Distinct : List String → Type 0
Distinct [] = Unit {0}
Distinct (x ∷ xs) = (contains_name x xs ≡ false) × Distinct xs

contains_name-snoc :
    (n x : String) (xs : List String)
    → (x == n) ≡ false
    → contains_name n xs ≡ false
    → contains_name n (xs ++ x ∷ []) ≡ false
contains_name-snoc n x [] e h = rw e
contains_name-snoc n x (y ∷ xs) e h = ground (arith, contains_name-snoc n x xs e)

Distinct-snoc :
    (x : String) (xs : List String)
    → contains_name x xs ≡ false
    → Distinct xs
    → Distinct (xs ++ x ∷ [])
Distinct-snoc x [] h d = (refl, tt)
Distinct-snoc x (y ∷ xs) h d = (
  contains_name-snoc y x xs (ground (arith, eq_iff x y, eq_iff y x)) d.0,
  Distinct-snoc x xs (ground arith) d.1,
)

pub add_missing-Distinct :
    (known xs : List String) → Distinct known → Distinct (add_missing known xs)
add_missing-Distinct known [] d = d
add_missing-Distinct known (x ∷ xs) d = elim (Bool-cases (contains_name x known)) [
  | inl e ↦ rw e (add_missing-Distinct known xs d)
  | inr e ↦ rw e (add_missing-Distinct (known ++ x ∷ []) xs (Distinct-snoc x known e d))
]

pub add_missing-append :
    (known xs ys : List String)
    → add_missing known (xs ++ ys) ≡ add_missing (add_missing known xs) ys
add_missing-append known [] ys = refl
add_missing-append known (x ∷ xs) ys =
    add_missing-append (if contains_name x known then known else known ++ x ∷ []) xs ys

module _ {ℓ} {A : Type ℓ} (name : A → String) (f : A → A)
    (keeps : (a : A) → name (f a) ≡ name a) where
  update_first-names :
      (n : String) (xs : List A)
      → ((update_first (λ x. name x == n) f xs ≡ none) × (contains_name n (map name xs) ≡ false))
        ⊎ ((ys : List A) × (update_first (λ x. name x == n) f xs ≡ some ys)
            × (contains_name n (map name xs) ≡ true)
            × (map name ys ≡ map name xs))
  unfolding update_first
  update_first-names n [] = inl (refl, refl)
  update_first-names n (x ∷ xs) = elim (Bool-cases (name x == n)) [
    | inl e ↦ inr (f x ∷ xs, rw e, rw e, rw (keeps x))
    | inr e ↦ elim (update_first-names n xs) [
      | inl (p, q) ↦ inl (rw (e, p), rw (e, q))
      | inr (ys, p, q, r) ↦ inr (x ∷ ys, rw (e, p), rw (e, q), rw r)
    ]
  ]

  -- The names after a search by name that changes the entry found or pushes a new one.
  pub update_or_push-names :
      (n : String) (new : A) (xs : List A)
      → name new ≡ n
      → map name (update_or_push (λ x. name x == n) f new xs)
        ≡ (if contains_name n (map name xs) then map name xs else map name xs ++ n ∷ [])
  unfolding update_or_push
  update_or_push-names n new xs e = elim (update_first-names n xs) [
    | inl (p, q) ↦
        rw (p, update_or_push, q)
          (map-append name xs (new ∷ []) ∙ ap (λ n'. map name xs ++ n' ∷ []) e)
    | inr (ys, p, q, r) ↦ rw (p, update_or_push, q) r
  ]
