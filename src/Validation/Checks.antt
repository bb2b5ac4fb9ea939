-- ===== src/Validation/Checks.antt =====
-- components/validation/src: how checks compose.
use botloader.Prelude.{
  ◌≡◌, ◌↔◌, refl, ap, ◌∙◌, Bool, true, false, List, [], ◌∷◌, ◌++◌, String, arith,
}
use botloader.Validation.{
  ValidationError, ValidationContext, push_error, push_field, pop, pop_field, error_if,
}

-- A check that adds no error exactly where `P` holds, and leaves the stack of fields as it was.
abbrev pub Checks : (ValidationContext → ValidationContext) → Type 0 → Type 0
Checks f P =
    (ctx : ValidationContext)
    → ((f ctx).field_stack ≡ ctx.field_stack) × (((f ctx).errs ≡ []) ↔ ((ctx.errs ≡ []) × P))

abbrev pub Check : Type 0
Check = ValidationContext → ValidationContext

append_some : (es : List ValidationError) (e : ValidationError) → ¬ (es ++ e ∷ [] ≡ [])
append_some [] e h = ground (arith, h)
append_some (x ∷ es) e h = ground (arith, h)

pub error_if-Checks :
    (test : Bool) (field msg : String) → Checks (error_if test field msg) (test ≡ false)
unfolding push_error
error_if-Checks true field msg ctx =
    (refl, ((λ h. absurd (append_some ctx.errs _ h)), λ h. ground (arith, h.1)))
error_if-Checks false field msg ctx = (refl, ((λ h. (h, refl)), λ h. h.0))

pub then-Checks :
    (f g : Check) (P Q : Type 0) → Checks f P → Checks g Q → Checks (λ ctx. g (f ctx)) (P × Q)
then-Checks f g P Q hf hg ctx =
    let (sf, (tof, fromf)) = hf ctx in
    let (sg, (tog, fromg)) = hg (f ctx) in
    (
      sg ∙ sf,
      (
        (λ e. let (ef, q) = tog e in let (ec, p) = tof ef in (ec, (p, q))),
        λ h. fromg (fromf (h.0, h.1.0), h.1.1),
      ),
    )

pub same-Checks : (f : Check) (P Q : Type 0) → (P ↔ Q) → Checks f P → Checks f Q
same-Checks f P Q (to, from) h ctx =
    let (s, (tof, fromf)) = h ctx in
    (s, ((λ e. let (ec, p) = tof e in (ec, to p)), λ k. fromf (k.0, from k.1)))

pub skip-Checks : Checks (λ ctx. ctx) Unit
skip-Checks ctx = (refl, ((λ h. (h, tt)), λ h. h.0))

pop-snoc : {A : Type 0} (xs : List A) (x : A) → pop (xs ++ x ∷ []) ≡ xs
unfolding pop
pop-snoc [] x = refl
pop-snoc (y ∷ []) x = refl
pop-snoc (y ∷ z ∷ zs) x = ap (◌∷◌ y) (pop-snoc (z ∷ zs) x)

-- A check of a part, between the push and the pop of its field.
pub field-Checks :
    (field : String) (f : Check) (P : Type 0)
    → Checks f P
    → Checks (λ ctx. pop_field (f (push_field field ctx))) P
unfolding push_field pop_field
field-Checks field f P h ctx =
    let (s, same) = h (push_field field ctx) in (ap pop s ∙ pop-snoc ctx.field_stack field, same)
