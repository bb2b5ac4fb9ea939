-- ===== src/WebSessions/Csrf.antt =====
-- `InMemoryCsrfStore` of components/stores/src/inmemory/web.rs: how often a token is in the store.
use botloader.Prelude.{
  ℕ, ◌+◌, ◌≡◌, refl, sym, ap, ◌∙◌, Bool, true, false, some, List, [], ◌∷◌, ◌++◌, String,
  if◌then◌else◌, arith, Bool-cases, inl, inr,
}
use botloader.WebSessions.{same_token, has_token, remove_token, generate_csrf_token}
use botloader.WebSessions.Tokens.{same_token-eq}

-- One for a token that is the given one.
abbrev pub one_if : Bool → ℕ
one_if b = if b then 1 else 0

abbrev pub count : String → List String → ℕ
count t [] = 0
count t (s ∷ ss) = one_if (same_token s t) + count t ss

count-snoc :
    (t x : String) (ss : List String)
    → count t (ss ++ x ∷ []) ≡ one_if (same_token x t) + count t ss
count-snoc t x [] = refl
count-snoc t x (s ∷ ss) = omega (arith, count-snoc t x ss)

pub generate_csrf_token-count :
    (t x : String) (generated tokens tokens' : List String)
    → generate_csrf_token generated tokens ≡ some (tokens', x)
    → count t tokens' ≡ one_if (same_token x t) + count t tokens
unfolding generate_csrf_token
generate_csrf_token-count t x [] tokens tokens' e = absurd (ground (arith, e))
generate_csrf_token-count t x (y ∷ ys) tokens tokens' e = elim (Bool-cases (has_token y tokens)) [
  | inl q ↦ generate_csrf_token-count t x ys tokens tokens' (ground (arith, e, q))
  | inr q ↦
      let p : (tokens ++ y ∷ [] ≡ tokens') × (y ≡ x) =
        (ground (arith, e, q), ground (arith, e, q)) in
      ap (count t) (sym p.0)
      ∙ count-snoc t y tokens
      ∙ ap (λ z. one_if (same_token z t) + count t tokens) p.1
]

pub remove_token-absent :
    (x : String) (ss : List String) → has_token x ss ≡ false → remove_token x ss ≡ ss
unfolding has_token remove_token
remove_token-absent x [] e = refl
remove_token-absent x (s ∷ ss) e = elim (Bool-cases (same_token s x)) [
  | inl q ↦ absurd (ground (arith, e, q))
  | inr q ↦ ground (arith, q, remove_token-absent x ss (ground (arith, e, q)))
]

pub remove_token-count :
    (t x : String) (ss : List String)
    → has_token x ss ≡ true
    → one_if (same_token x t) + count t (remove_token x ss) ≡ count t ss
unfolding has_token remove_token
remove_token-count t x [] e = absurd (ground (arith, e))
remove_token-count t x (s ∷ ss) e = elim (Bool-cases (same_token s x)) [
  | inl q ↦ rw q (ap (λ y. one_if (same_token y t) + count t ss) (sym (same_token-eq s x q)))
  | inr q ↦ rw q (omega (arith, remove_token-count t x ss (ground (arith, e, q))))
]
