-- ===== src/Output/Sort/Laws.antt =====
-- The sort gives a stable rearrangement in ascending order.
use mathlib.Core.List.{Perm, perm_append_singleton}
use mathlib.Core.List.Perm
use new_p2p_crawler.Output.Sort.{insert_sorted, sort_onto, sort_by_key}
use new_p2p_crawler.Prelude.{
  if◌then◌else◌, Bool-cases, All, ℤ, ◌≤ℤ◌, leb_ℤ, eq_ℤ, ◌≡◌, refl, inl, inr, List, [], ◌∷◌, ◌++◌,
  arith, sym, ap, subst, ◌∙◌, true, false, append-nil, append_assoc,
}

above_ne : (a b k : ℤ) → leb_ℤ a b ≡ false → eq_ℤ b k ≡ true → eq_ℤ a k ≡ false
above_ne a b k h e = ground arith

lt_le_above : (a b c : ℤ) → leb_ℤ b a ≡ false → b ≤ℤ c → leb_ℤ c a ≡ false
lt_le_above a b c h k = ground arith

module _ {ℓ} {A : Type ℓ} (key : A → ℤ) where
  abbrev pub IsSorted : List A → Type ℓ
  IsSorted [] = Unit
  IsSorted (x ∷ xs) = All (λ y. key x ≤ℤ key y) xs × IsSorted xs

  -- The elements with one key, in order.
  abbrev pub with_key : ℤ → List A → List A
  with_key k [] = []
  with_key k (x ∷ xs) = if eq_ℤ (key x) k then x ∷ with_key k xs else with_key k xs

  insert_sorted-All :
      (P : A → Type 0) (x : A) (ys : List A) → P x → All P ys → All P (insert_sorted key x ys)
  unfolding insert_sorted
  insert_sorted-All P x [] h hs = (h, tt)
  insert_sorted-All P x (y ∷ ys) h hs = elim (Bool-cases (leb_ℤ (key y) (key x))) [
    | inl e ↦ rw e (hs.0, insert_sorted-All P x ys h hs.1)
    | inr e ↦ rw e (h, hs)
  ]

  All-le :
      (a b : A) (xs : List A)
      → key a ≤ℤ key b
      → All (λ y. key b ≤ℤ key y) xs
      → All (λ y. key a ≤ℤ key y) xs
  All-le a b [] h hs = tt
  All-le a b (x ∷ xs) h hs = (omega (arith, h, hs.0), All-le a b xs h hs.1)

  insert_sorted-IsSorted : (x : A) (ys : List A) → IsSorted ys → IsSorted (insert_sorted key x ys)
  unfolding insert_sorted
  insert_sorted-IsSorted x [] h = (tt, tt)
  insert_sorted-IsSorted x (y ∷ ys) h = elim (Bool-cases (leb_ℤ (key y) (key x))) [
    | inl e ↦ rw e (
      insert_sorted-All (λ z. key y ≤ℤ key z) x ys (ground arith) h.0,
      insert_sorted-IsSorted x ys h.1,
    )
    | inr e ↦ rw e (let low : key x ≤ℤ key y = ground arith in (low, All-le x y ys low h.0), h)
  ]

  insert_sorted-perm : (x : A) (ys : List A) → Perm (insert_sorted key x ys) (x ∷ ys)
  unfolding insert_sorted
  insert_sorted-perm x [] = Perm.rfl
  insert_sorted-perm x (y ∷ ys) = elim (Bool-cases (leb_ℤ (key y) (key x))) [
    | inl e ↦ rw e (Perm.trans (Perm.cons y (insert_sorted-perm x ys)) (Perm.swap x y ys))
    | inr e ↦ rw e Perm.rfl
  ]

  with_key-append :
      (k : ℤ) (xs ys : List A) → with_key k (xs ++ ys) ≡ with_key k xs ++ with_key k ys
  with_key-append k [] ys = refl
  with_key-append k (x ∷ xs) ys = elim (Bool-cases (eq_ℤ (key x) k)) [
    | inl e ↦ rw e (ap (λ t. x ∷ t) (with_key-append k xs ys))
    | inr e ↦ rw e (with_key-append k xs ys)
  ]

  -- Where every key is greater than one with the value `k`, no key has that value.
  with_key-above :
      (k : ℤ) (x : A) (ys : List A)
      → eq_ℤ (key x) k ≡ true
      → All (λ y. leb_ℤ (key y) (key x) ≡ false) ys
      → with_key k ys ≡ []
  with_key-above k x [] e h = refl
  with_key-above k x (y ∷ ys) e h =
      rw (above_ne (key y) (key x) k h.0 e) (with_key-above k x ys e h.1)

  All-above :
      (x y : A) (ys : List A)
      → leb_ℤ (key y) (key x) ≡ false
      → All (λ z. key y ≤ℤ key z) ys
      → All (λ z. leb_ℤ (key z) (key x) ≡ false) ys
  All-above x y [] e h = tt
  All-above x y (z ∷ ys) e h = (lt_le_above (key x) (key y) (key z) e h.0, All-above x y ys e h.1)

  insert_sorted-with_key :
      (k : ℤ) (x : A) (ys : List A)
      → IsSorted ys
      → with_key k (insert_sorted key x ys) ≡ with_key k (ys ++ (x ∷ []))
  unfolding insert_sorted
  insert_sorted-with_key k x [] h = refl
  insert_sorted-with_key k x (y ∷ ys) h = elim (Bool-cases (leb_ℤ (key y) (key x))) [
    | inl e ↦
        rw e (ap (λ t. if eq_ℤ (key y) k then y ∷ t else t) (insert_sorted-with_key k x ys h.1))
    | inr e ↦ rw e (elim (Bool-cases (eq_ℤ (key x) k)) [
      | inl f ↦
          let none_left = with_key-above k x (y ∷ ys) f (e, All-above x y ys e h.0) in
          rw f (
            ap (λ t. x ∷ t) none_left
            ∙ sym (
                with_key-append k (y ∷ ys) (x ∷ [])
                ∙ ap (λ t. t ++ with_key k (x ∷ [])) none_left
                ∙ (rw f)))
      | inr f ↦ rw f (sym (with_key-append k (y ∷ ys) (x ∷ []) ∙ (rw f (append-nil _))))
    ])
  ]

  -- Invariants of the loop: ascending, a rearrangement, and in order at each key.
  pub record IsSortOf (sorted xs : List A) : Type ℓ where
    pub ascending : IsSorted sorted
    pub rearranged : Perm sorted xs
    pub stable : (k : ℤ) → with_key k sorted ≡ with_key k xs

  insert_sorted-IsSortOf :
      (x : A) (sorted seen : List A)
      → IsSortOf sorted seen
      → IsSortOf (insert_sorted key x sorted) (seen ++ (x ∷ []))
  insert_sorted-IsSortOf x sorted seen h = record {
    ascending = insert_sorted-IsSorted x sorted h.ascending;
    rearranged =
        Perm.trans (insert_sorted-perm x sorted)
          (Perm.trans (Perm.cons x h.rearranged) (Perm.symm (perm_append_singleton x seen)));
    stable = λ k.
        insert_sorted-with_key k x sorted h.ascending
        ∙ with_key-append k sorted (x ∷ [])
        ∙ ap (λ t. t ++ with_key k (x ∷ [])) (h.stable k)
        ∙ sym (with_key-append k seen (x ∷ []));
  }

  sort_onto-IsSortOf :
      (sorted seen xs : List A)
      → IsSortOf sorted seen
      → IsSortOf (sort_onto key sorted xs) (seen ++ xs)
  unfolding sort_onto
  sort_onto-IsSortOf sorted seen [] h = rw append-nil h
  sort_onto-IsSortOf sorted seen (x ∷ xs) h =
      subst (λ t. IsSortOf (sort_onto key (insert_sorted key x sorted) xs) t)
        (append_assoc seen (x ∷ []) xs)
        (sort_onto-IsSortOf (insert_sorted key x sorted) (seen ++ (x ∷ [])) xs
          (insert_sorted-IsSortOf x sorted seen h))

  -- The sort is ascending in the key, holds the same elements, and keeps the order of those that
  -- have the same key.
  pub sort_by_key-IsSortOf : (xs : List A) → IsSortOf (sort_by_key key xs) xs
  unfolding sort_by_key
  sort_by_key-IsSortOf xs =
      sort_onto-IsSortOf [] [] xs
        (record { ascending = tt; rearranged = Perm.rfl; stable = λ k. refl })
