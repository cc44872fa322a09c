-- ===== src/Prelude/Assoc.antt =====
-- A map as an association list, over a decision of key equality.
use Prim.Native.Nat.{ℕ, ◌+◌}
use mathlib.Core.Path.{◌≡◌, refl, sym, subst}
use mathlib.Core.Logic.{ite, ◌≢◌, if_pos, if_neg}
use mathlib.Core.List.{List, [], ◌∷◌}
use mathlib.Core.Option.{Option, none, some}
use native.Mathlib.Omega.{arith}

module _ {ℓ} {K V : Type ℓ} (eq : Discrete K) where
  unfoldable pub find : K → List (K × V) → Option V
  find k [] = none
  find k ((j, v) ∷ m) = ite (eq j k) (some v) (find k m)

  -- A new key goes to the end.
  unfoldable pub put : K → V → List (K × V) → List (K × V)
  put k v [] = (k, v) ∷ []
  put k v ((j, w) ∷ m) = ite (eq j k) ((k, v) ∷ m) ((j, w) ∷ put k v m)

  -- Change the value at `k` in place; a missing key changes nothing.
  unfoldable pub adjust : K → (V → V) → List (K × V) → List (K × V)
  adjust k f [] = []
  adjust k f ((j, v) ∷ m) = ite (eq j k) ((j, f v) ∷ m) ((j, v) ∷ adjust k f m)

  pub find-put :
      (k j : K) (v : V) (m : List (K × V)) → find j (put k v m) ≡ ite (eq k j) (some v) (find j m)
  unfolding find put
  find-put k j v [] = refl
  find-put k j v ((i, w) ∷ m) = ground (arith, find-put k j v m)

  pub find-put_ne : (k j : K) (v : V) (m : List (K × V)) → k ≢ j → find j (put k v m) ≡ find j m
  find-put_ne k j v m n = ground (arith, find-put k j v m)

  pub find-put_self : (k : K) (v : V) (m : List (K × V)) → find k (put k v m) ≡ some v
  find-put_self k v m = ground (arith, find-put k k v m)

  pub find-adjust_ne :
      (k j : K) (f : V → V) (m : List (K × V)) → k ≢ j → find j (adjust k f m) ≡ find j m
  unfolding find adjust
  find-adjust_ne k j f [] h = refl
  find-adjust_ne k j f ((i, w) ∷ m) h = ground (arith, find-adjust_ne k j f m h)

  -- The sum of a weight over the values.
  abbrev pub total : (V → ℕ) → List (K × V) → ℕ
  total w [] = 0
  total w ((j, v) ∷ m) = w v + total w m

  -- A key that is not there, and keys that are all different.
  abbrev pub Absent : K → List (K × V) → Type ℓ
  Absent k m = find k m ≡ none

  abbrev pub Distinct : List (K × V) → Type ℓ
  Distinct [] = Unit
  Distinct ((j, v) ∷ m) = Absent j m × Distinct m

  pub total-put_new :
      (w : V → ℕ) (k : K) (v : V) (m : List (K × V))
      → Absent k m
      → total w (put k v m) ≡ total w m + w v
  unfolding find put
  total-put_new w k v [] h = omega arith
  total-put_new w k v ((j, u) ∷ m) h = ground (arith, total-put_new w k v m)

  pub total-put_old :
      (w : V → ℕ) (k : K) (v u : V) (m : List (K × V))
      → find k m ≡ some u
      → total w (put k v m) + w u ≡ total w m + w v
  unfolding find put
  total-put_old w k v u [] h = cc
  total-put_old w k v u ((j, x) ∷ m) h = ground (arith, total-put_old w k v u m)

  pub total-adjust_old :
      (w : V → ℕ) (k : K) (f : V → V) (u : V) (m : List (K × V))
      → find k m ≡ some u
      → total w (adjust k f m) + w u ≡ total w m + w (f u)
  unfolding find adjust
  total-adjust_old w k f u [] h = cc
  total-adjust_old w k f u ((j, x) ∷ m) h = ground (arith, total-adjust_old w k f u m)

  pub adjust_missing : (k : K) (f : V → V) (m : List (K × V)) → Absent k m → adjust k f m ≡ m
  unfolding find adjust
  adjust_missing k f [] h = refl
  adjust_missing k f ((j, x) ∷ m) h = ground (arith, adjust_missing k f m)

  pub find-adjust_self :
      (k : K) (f : V → V) (u : V) (m : List (K × V))
      → find k m ≡ some u
      → find k (adjust k f m) ≡ some (f u)
  unfolding find adjust
  find-adjust_self k f u [] h = cc
  find-adjust_self k f u ((j, x) ∷ m) h = ground (arith, find-adjust_self k f u m)

  Absent-put : (k j : K) (v : V) (m : List (K × V)) → k ≢ j → Absent j m → Absent j (put k v m)
  unfolding find put
  Absent-put k j v [] n h = ground arith
  Absent-put k j v ((i, x) ∷ m) n h = ground (arith, Absent-put k j v m)

  Absent-adjust : (k j : K) (f : V → V) (m : List (K × V)) → Absent j m → Absent j (adjust k f m)
  unfolding find adjust
  Absent-adjust k j f [] h = refl
  Absent-adjust k j f ((i, x) ∷ m) h = ground (arith, Absent-adjust k j f m)

  pub Distinct-put : (k : K) (v : V) (m : List (K × V)) → Distinct m → Distinct (put k v m)
  unfolding put
  Distinct-put k v [] h = (unfold find in refl, tt)
  Distinct-put k v ((j, x) ∷ m) h = elim (eq j k) [
    | yes p ↦ rw (if_pos _ p) (subst (λ i. Absent i m) p h.0, h.1)
    | no p ↦ rw (if_neg _ p) (Absent-put k j v m (λ e. p (sym e)) h.0, Distinct-put k v m h.1)
  ]

  pub Distinct-adjust :
      (k : K) (f : V → V) (m : List (K × V)) → Distinct m → Distinct (adjust k f m)
  unfolding adjust
  Distinct-adjust k f [] h = tt
  Distinct-adjust k f ((j, x) ∷ m) h = elim (eq j k) [
    | yes p ↦ rw (if_pos _ p) h
    | no p ↦ rw (if_neg _ p) (Absent-adjust k j f m h.0, Distinct-adjust k f m h.1)
  ]
