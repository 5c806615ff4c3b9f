-- ===== src/Posture/Order.antt =====
-- The order of versions that compareVersions gives.
use netra.Prelude.{zero, suc, String, ◌≡◌, refl, List, [], ◌∷◌, ℤ, pos, negsuc, ◌≤ℤ◌, arith}
use netra.Posture.Versions.{compare_part, compare_parts, compare_versions, split_version}

-- The answer with the sides swapped.
abbrev pub swapped : ℤ → ℤ
swapped (pos zero) = pos zero
swapped (pos (suc n)) = negsuc n
swapped (negsuc n) = pos (suc n)

compare_part-swap :
    (x y rest rest' : ℤ)
    → rest' ≡ swapped rest
    → compare_part y x rest' ≡ swapped (compare_part x y rest)
unfolding compare_part
compare_part-swap x y rest rest' h = ground arith

compare_parts-swap : (xs ys : List ℤ) → compare_parts ys xs ≡ swapped (compare_parts xs ys)
unfolding compare_parts
compare_parts-swap [] [] = refl
compare_parts-swap [] (y ∷ ys) = compare_part-swap (pos 0) y _ _ (compare_parts-swap [] ys)
compare_parts-swap (x ∷ xs) [] = compare_part-swap x (pos 0) _ _ (compare_parts-swap xs [])
compare_parts-swap (x ∷ xs) (y ∷ ys) = compare_part-swap x y _ _ (compare_parts-swap xs ys)

-- Comparing two versions the other way round gives the opposite answer.
pub compare_versions-swap : (a b : String) → compare_versions b a ≡ swapped (compare_versions a b)
unfolding compare_versions
compare_versions-swap a b = compare_parts-swap (split_version a) (split_version b)

compare_part-trans :
    (x y z p q r : ℤ)
    → (p ≤ℤ pos 0 → q ≤ℤ pos 0 → r ≤ℤ pos 0)
    → compare_part x y p ≤ℤ pos 0
    → compare_part y z q ≤ℤ pos 0
    → compare_part x z r ≤ℤ pos 0
unfolding compare_part
compare_part-trans x y z p q r h hp hq = ground arith

compare_parts-trans :
    (xs ys zs : List ℤ)
    → compare_parts xs ys ≤ℤ pos 0
    → compare_parts ys zs ≤ℤ pos 0
    → compare_parts xs zs ≤ℤ pos 0
unfolding compare_parts
compare_parts-trans [] [] zs h k = k
compare_parts-trans [] (y ∷ ys) [] h k = omega arith
compare_parts-trans [] (y ∷ ys) (z ∷ zs) h k =
    compare_part-trans (pos 0) y z _ _ _ (compare_parts-trans [] ys zs) h k
compare_parts-trans (x ∷ xs) [] [] h k = h
compare_parts-trans (x ∷ xs) [] (z ∷ zs) h k =
    compare_part-trans x (pos 0) z _ _ _ (compare_parts-trans xs [] zs) h k
compare_parts-trans (x ∷ xs) (y ∷ ys) [] h k =
    compare_part-trans x y (pos 0) _ _ _ (compare_parts-trans xs ys []) h k
compare_parts-trans (x ∷ xs) (y ∷ ys) (z ∷ zs) h k =
    compare_part-trans x y z _ _ _ (compare_parts-trans xs ys zs) h k

-- A version that is not above a second, which is not above a third, is not above the third.
pub compare_versions-trans :
    (a b c : String)
    → compare_versions a b ≤ℤ pos 0
    → compare_versions b c ≤ℤ pos 0
    → compare_versions a c ≤ℤ pos 0
unfolding compare_versions
compare_versions-trans a b c =
    compare_parts-trans (split_version a) (split_version b) (split_version c)
