-- ===== src/VmScripts/Store.antt =====
-- `ScriptsStateStore` of components/vm/src/lib.rs: what the changes of a script's state leave.
use botloader.Prelude.{
  ℕ, ◌≡◌, refl, sym, ◌∙◌, ◌≢◌, true, false, none, some, List, [], ◌∷◌, String, ◌==◌, ◌⊎◌, inl, inr,
  arith, Bool-cases, if_either,
}
use botloader.VmSession.{Script}
use botloader.VmScripts.{
  ScriptLoadState, unloaded, loaded, failed, ScriptState, get_script, is_failed_or_loaded,
  set_state, same_text, mark_loaded, mark_all,
}

-- A script of the store that ran, or whose module another script loaded.
abbrev pub Settled : List ScriptState → ℕ → Type 0
Settled ss id = is_failed_or_loaded id ss ≡ some true

-- A change after which the lookup of a script finds it as before, or settled.
abbrev pub Advances : List ScriptState → List ScriptState → Type 0
Advances ss ts = (j : ℕ) → (is_failed_or_loaded j ts ≡ is_failed_or_loaded j ss) ⊎ Settled ts j

pub Advances-trans :
    (ss ts us : List ScriptState) → Advances ss ts → Advances ts us → Advances ss us
Advances-trans ss ts us f g j = elim (g j) [
  | inr e ↦ inr e
  | inl e ↦ elim (f j) [ inl e' ↦ inl (e ∙ e') | inr e' ↦ inr (e ∙ e') ]
]

lookup_head :
    (j : ℕ) (s : ScriptState) (ss : List ScriptState)
    → (s.script.id == j) ≡ true
    → is_failed_or_loaded j (s ∷ ss) ≡ is_failed_or_loaded j (s ∷ [])
unfolding is_failed_or_loaded get_script
lookup_head j s ss t = ground (arith, t)

lookup_tail :
    (j : ℕ) (s : ScriptState) (ss : List ScriptState)
    → (s.script.id == j) ≡ false
    → is_failed_or_loaded j (s ∷ ss) ≡ is_failed_or_loaded j ss
unfolding is_failed_or_loaded get_script
lookup_tail j s ss t = ground (arith, t)

-- A settled script in front of a list.
lookup-Settled :
    (j : ℕ) (script : Script) (st : ScriptLoadState) (text : String) (ss : List ScriptState)
    → st ≢ unloaded
    → (script.id == j) ≡ true
    → Settled (record { script = script; state = st; compiled = text } ∷ ss) j
unfolding is_failed_or_loaded get_script
lookup-Settled j script unloaded text ss n t = absurd (n refl)
lookup-Settled j script loaded text ss n t = ground (arith, t)
lookup-Settled j script failed text ss n t = ground (arith, t)

-- The head of a store is settled.
settle_head-Advances :
    (st : ScriptLoadState) (s : ScriptState) (ss : List ScriptState)
    → st ≢ unloaded
    → Advances (s ∷ ss) (record s { state = st } ∷ ss)
settle_head-Advances st s ss n j = elim (Bool-cases (s.script.id == j)) [
  | inl t ↦ inr (lookup-Settled j s.script st s.compiled ss n t)
  | inr t ↦ inl (lookup_tail j (record s { state = st }) ss t ∙ sym (lookup_tail j s ss t))
]

-- The same head in front of a change.
under_head-Advances :
    (s : ScriptState) (ss ts : List ScriptState) → Advances ss ts → Advances (s ∷ ss) (s ∷ ts)
under_head-Advances s ss ts f j = elim (Bool-cases (s.script.id == j)) [
  | inl t ↦ inl (lookup_head j s ts t ∙ sym (lookup_head j s ss t))
  | inr t ↦ elim (f j) [
    | inl e ↦ inl (lookup_tail j s ts t ∙ e ∙ sym (lookup_tail j s ss t))
    | inr e ↦ inr (lookup_tail j s ts t ∙ e)
  ]
]

pub set_state-Advances :
    (id : ℕ) (st : ScriptLoadState) (ss : List ScriptState)
    → st ≢ unloaded
    → Advances ss (set_state id st ss)
unfolding set_state
set_state-Advances id st [] n = λ j. inl refl
set_state-Advances id st (s ∷ ss) n =
    if_either (Advances (s ∷ ss)) (s.script.id == id) (record s { state = st } ∷ ss)
      (s ∷ set_state id st ss) (λ t. settle_head-Advances st s ss n)
      (λ t. under_head-Advances s ss (set_state id st ss) (set_state-Advances id st ss n))

pub mark_loaded-Advances :
    (name : String) (ss : List ScriptState) → Advances ss (mark_loaded name ss)
unfolding mark_loaded
mark_loaded-Advances name [] = λ j. inl refl
mark_loaded-Advances name (s ∷ ss) =
    if_either (Advances (s ∷ ss)) (same_text s.script.name name) (record s { state = loaded } ∷ ss)
      (s ∷ mark_loaded name ss)
      (λ t. settle_head-Advances loaded s ss (λ e. absurd (ground (arith, e))))
      (λ t. under_head-Advances s ss (mark_loaded name ss) (mark_loaded-Advances name ss))

pub mark_all-Advances :
    (names : List String) (ss : List ScriptState) → Advances ss (mark_all names ss)
unfolding mark_all
mark_all-Advances [] ss = λ j. inl refl
mark_all-Advances (name ∷ names) ss =
    Advances-trans ss (mark_loaded name ss) (mark_all (name ∷ names) ss)
      (mark_loaded-Advances name ss) (mark_all-Advances names (mark_loaded name ss))

-- A script that is found is settled by a change of its state.
pub set_state-Settled :
    (id : ℕ) (st : ScriptLoadState) (ss : List ScriptState)
    → st ≢ unloaded
    → is_failed_or_loaded id ss ≢ none
    → Settled (set_state id st ss) id
unfolding set_state is_failed_or_loaded get_script
set_state-Settled id st [] n f = absurd (f refl)
set_state-Settled id st (s ∷ ss) n f = elim (Bool-cases (s.script.id == id)) [
  | inl t ↦ rw t (lookup-Settled id s.script st s.compiled ss n t)
  | inr t ↦ rw t (
      lookup_tail id s (set_state id st ss) t
      ∙ set_state-Settled id st ss n (λ e. f (lookup_tail id s ss t ∙ e)))
]
