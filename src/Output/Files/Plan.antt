-- ===== src/Output/Files/Plan.antt =====
-- Straight-line programs on the file system of src/output.rs, and the effects that they plan.
use new_p2p_crawler.Output.Files.{
  Effect, Failure, Files, Program, act, give, fail, ◌>>=◌, then_run, next_outcome,
}
use new_p2p_crawler.Io.{IoError, Result, ok, err}
use new_p2p_crawler.Prelude.{
  split, ◌≡◌, refl, sym, ap, ◌∙◌, Option, none, some, List, [], ◌∷◌, ◌++◌, append-nil, append_assoc,
}

-- Success is the whole plan and a value with `Q`; an error is the plan up to some point.
abbrev pub Outcome :
    {A : Type 0} → List Effect → (A → Type 0) → Files → Result Failure A × Files → Type 0
Outcome plan Q f (ok a, f') = (f'.effects ≡ f.effects ++ plan) × Q a
Outcome plan Q f (err e, f') =
    (before : List Effect) × (after : List Effect) × (plan ≡ before ++ after)
    × (f'.effects ≡ f.effects ++ before)

abbrev pub Follows : {A : Type 0} → Program A → List Effect → (A → Type 0) → Type 0
Follows m plan Q = (f : Files) → Outcome plan Q f (m f)

next_outcome-Outcome :
    (e : Effect) (f : Files) (o : List (Option IoError))
    → Outcome (e ∷ []) (λ _. Unit {0}) f (next_outcome e f.effects o)
next_outcome-Outcome e f [] = (refl, tt)
next_outcome-Outcome e f (none ∷ rest) = (refl, tt)
next_outcome-Outcome e f (some x ∷ rest) = ([], e ∷ [], refl, sym (append-nil f.effects))

pub act-Follows : (e : Effect) → Follows (act e) (e ∷ []) (λ _. Unit {0})
unfolding act
act-Follows e f = next_outcome-Outcome e f f.outcomes

-- A failure that follows no effect fits every plan.
pub fail-Follows :
    {A : Type 0} (e : Failure) (plan : List Effect) (Q : A → Type 0) → Follows (fail e) plan Q
fail-Follows e plan Q f = ([], plan, refl, sym (append-nil f.effects))

pub give-Follows : {A : Type 0} (a : A) (Q : A → Type 0) → Q a → Follows (give a) [] Q
give-Follows a Q h f = (sym (append-nil f.effects), h)

module _ {A B : Type 0} (k : A → Program B) (p q : List Effect) (Q : A → Type 0) (R : B → Type 0)
    (rest : (a : A) → Q a → Follows (k a) q R) where
  later :
      (f f' : Files) (r : Result Failure B × Files)
      → f'.effects ≡ f.effects ++ p
      → Outcome q R f' r
      → Outcome (p ++ q) R f r
  later f f' (ok b, f'') h o = (o.0 ∙ ap (λ t. t ++ q) h ∙ append_assoc f.effects p q, o.1)
  later f f' (err e, f'') h (before, after, split, ran) = (
    p ++ before,
    after,
    ap (λ t. p ++ t) split ∙ sym (append_assoc p before after),
    ran ∙ ap (λ t. t ++ before) h ∙ append_assoc f.effects p before,
  )

  step :
      (f : Files) (r : Result Failure A × Files)
      → Outcome p Q f r
      → Outcome (p ++ q) R f (then_run k r)
  step f (ok a, f') o = later f f' (k a f') o.0 (rest a o.1 f')
  step f (err e, f') (before, after, split, ran) =
      (before, after ++ q, ap (λ t. t ++ q) split ∙ append_assoc before after q, ran)

  pub bind-Follows : (m : Program A) → Follows m p Q → Follows (m >>= k) (p ++ q) R
  bind-Follows m h f = step f (m f) (h f)
