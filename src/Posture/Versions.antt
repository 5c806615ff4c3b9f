-- ===== src/Posture/Versions.antt =====
-- backend/internal/posture/score.go: compareVersions and splitVersion. An `int` of a version is a
-- 64-bit one; its wrap-around is written out.
use Prim.Native.Char.{Char, code}
use netra.Prelude.{
  ℕ, ◌+◌, ◌-◌, ◌*◌, ◌%◌, ◌^◌, String, Bool, true, false, ◌&&◌, ◌||◌, List, [], ◌∷◌, ◌++◌, ltb, leb,
  ◌==◌, ℤ, pos, negsuc, sub_ℕ, ltb_ℤ, eqb_ℤ, if◌then◌else◌,
}

-- The signed reading of a 64-bit pattern.
abbrev pub signed : ℕ → ℤ
signed n = if ltb n (2 ^ 63) then pos n else sub_ℕ n (2 ^ 64)

-- The loop's state: the parts so far, the pattern of `current`, and `digits`.
pub record Split : Type 0 where
  pub parts : List ℤ
  pub current : ℕ
  pub digits : Bool

unfoldable pub read_rune : Split → Char → Split
read_rune s r =
    if leb 48 (code r) && leb (code r) 57
    then record s { current = (s.current * 10 + (code r - 48)) % 2 ^ 64; digits = true }
    else if code r == 46
    then record { parts = s.parts ++ (signed s.current ∷ []); current = 0; digits = false }
    else s

unfoldable pub read_runes : Split → String → Split
read_runes s String.[] = s
read_runes s (String.◌∷◌ r text) = read_runes (read_rune s r) text

abbrev pub is_empty : List ℤ → Bool
is_empty [] = true
is_empty (x ∷ xs) = false

unfoldable pub split_version : String → List ℤ
split_version v =
    let s = read_runes (record { parts = []; current = 0; digits = false }) v in
    if s.digits || is_empty s.parts then s.parts ++ (signed s.current ∷ []) else s.parts

unfoldable pub compare_part : ℤ → ℤ → ℤ → ℤ
compare_part x y rest = if eqb_ℤ x y then rest else if ltb_ℤ x y then negsuc 0 else pos 1

-- The loop of `compareVersions`: a part that is missing reads as 0.
unfoldable pub compare_parts : List ℤ → List ℤ → ℤ
compare_parts [] [] = pos 0
compare_parts [] (y ∷ ys) = compare_part (pos 0) y (compare_parts [] ys)
compare_parts (x ∷ xs) [] = compare_part x (pos 0) (compare_parts xs [])
compare_parts (x ∷ xs) (y ∷ ys) = compare_part x y (compare_parts xs ys)

unfoldable pub compare_versions : String → String → ℤ
compare_versions a b = compare_parts (split_version a) (split_version b)
