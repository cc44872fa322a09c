-- ===== src/Output/Sort.antt =====
-- `slice::sort_by_key` of the standard library at an i64 key: it is stable.
pub mod Laws
use new_p2p_crawler.Prelude.{if◌then◌else◌, ℤ, leb_ℤ, List, [], ◌∷◌}

module _ {ℓ} {A : Type ℓ} (key : A → ℤ) where
  -- Behind the elements whose key is not greater.
  unfoldable pub insert_sorted : A → List A → List A
  insert_sorted x [] = x ∷ []
  insert_sorted x (y ∷ ys) = if leb_ℤ (key y) (key x) then y ∷ insert_sorted x ys else x ∷ y ∷ ys

  unfoldable pub sort_onto : List A → List A → List A
  unfolding insert_sorted
  sort_onto sorted [] = sorted
  sort_onto sorted (x ∷ xs) = sort_onto (insert_sorted x sorted) xs

  unfoldable pub sort_by_key : List A → List A
  unfolding sort_onto
  sort_by_key xs = sort_onto [] xs
