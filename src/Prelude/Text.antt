-- ===== src/Prelude/Text.antt =====
-- Go's text functions that the program calls (package strings). A Go string is the native
-- `String`, a list of code points whose `len` is its number of UTF-8 bytes; texts reach the program
-- from JSON and PostgreSQL, which hold no invalid UTF-8.
use Prim.Native.Nat.{ℕ, ◌+◌, ◌-◌, ◌<◌, compare, Ordering}
use Prim.Native.Char.{Char, char, code, IsScalar}
use Prim.Native.String.{String}
use mathlib.Core.Path.{◌≡◌, refl}
use mathlib.Core.Logic.{dite}
use mathlib.Core.Bool.{Bool, true, false, ◌&&◌, ◌||◌}
use text.Mathlib.TextEquality.{Char-path}
use native.Mathlib.Omega.{arith}
use native.Mathlib.Decide.{dec_lt}
use netra.Prelude.Tests.{ltb, leb, ◌==◌, if◌then◌else◌, if_false}

-- The tables of package unicode that strings.ToUpper, ToLower, EqualFold and TrimSpace read, rune
-- by rune.
pub record Unicode : Type 0 where
  pub upper : Char → Char
  pub lower : Char → Char
  pub fold : Char → Char
  pub is_space : Char → Bool

abbrev pub map_text : (Char → Char) → String → String
map_text f String.[] = String.[]
map_text f (String.◌∷◌ c s) = String.◌∷◌ (f c) (map_text f s)

abbrev pub same_under : (Char → Char) → String → String → Bool
same_under f String.[] String.[] = true
same_under f String.[] (String.◌∷◌ d t) = false
same_under f (String.◌∷◌ c s) String.[] = false
same_under f (String.◌∷◌ c s) (String.◌∷◌ d t) = code (f c) == code (f d) && same_under f s t

abbrev pub drop_leading : (Char → Bool) → String → String
drop_leading p String.[] = String.[]
drop_leading p (String.◌∷◌ c s) = if p c then drop_leading p s else String.◌∷◌ c s

abbrev keep_before_space : Bool → Char → String → String
keep_before_space true c String.[] = String.[]
keep_before_space true c (String.◌∷◌ d t) = String.◌∷◌ c (String.◌∷◌ d t)
keep_before_space false c s = String.◌∷◌ c s

abbrev pub drop_trailing : (Char → Bool) → String → String
drop_trailing p String.[] = String.[]
drop_trailing p (String.◌∷◌ c s) = keep_before_space (p c) c (drop_trailing p s)

module _ ⦃u : Unicode⦄ where
  -- strings.ToUpper
  abbrev pub to_upper : String → String
  to_upper = map_text u.upper

  -- strings.ToLower
  abbrev pub to_lower : String → String
  to_lower = map_text u.lower

  -- strings.EqualFold
  abbrev pub equal_fold : String → String → Bool
  equal_fold = same_under u.fold

  -- strings.TrimSpace
  abbrev pub trim_space : String → String
  trim_space s = drop_trailing u.is_space (drop_leading u.is_space s)

pub same_under_refl : (f : Char → Char) (s : String) → same_under f s s ≡ true
same_under_refl f String.[] = refl
same_under_refl f (String.◌∷◌ c s) = ground (arith, same_under_refl f s)

-- Go's `<` on strings: by bytes, which for UTF-8 is by code points.
abbrev pub ltb_text : String → String → Bool
ltb_text String.[] String.[] = false
ltb_text String.[] (String.◌∷◌ d t) = true
ltb_text (String.◌∷◌ c s) String.[] = false
ltb_text (String.◌∷◌ c s) (String.◌∷◌ d t) =
    ltb (code c) (code d) || (code c == code d && ltb_text s t)

pub ltb_text_asymm : (s t : String) → ltb_text s t ≡ true → ltb_text t s ≡ false
ltb_text_asymm String.[] String.[] h = refl
ltb_text_asymm String.[] (String.◌∷◌ d t) h = refl
ltb_text_asymm (String.◌∷◌ c s) String.[] h = cc
ltb_text_asymm (String.◌∷◌ c s) (String.◌∷◌ d t) h = ground (arith, ltb_text_asymm s t)

pub ltb_text_trans :
    (s t u : String) → ltb_text s t ≡ true → ltb_text t u ≡ true → ltb_text s u ≡ true
ltb_text_trans String.[] String.[] u h k = cc
ltb_text_trans String.[] (String.◌∷◌ d t) String.[] h k = cc
ltb_text_trans String.[] (String.◌∷◌ d t) (String.◌∷◌ e u) h k = refl
ltb_text_trans (String.◌∷◌ c s) String.[] u h k = cc
ltb_text_trans (String.◌∷◌ c s) (String.◌∷◌ d t) String.[] h k = cc
ltb_text_trans (String.◌∷◌ c s) (String.◌∷◌ d t) (String.◌∷◌ e u) h k =
    ground (arith, ltb_text_trans s t u)

-- Of two different texts one is less.
pub ltb_text_total : (s t : String) → ltb_text s t ≡ false → ltb_text t s ≡ false → s ≡ t
ltb_text_total String.[] String.[] h k = refl
ltb_text_total String.[] (String.◌∷◌ d t) h k = cc
ltb_text_total (String.◌∷◌ c s) String.[] h k = cc
ltb_text_total (String.◌∷◌ c s) (String.◌∷◌ d t) h k =
    let (e, hs, ks) = heads (code c) (code d) (ltb_text s t) (ltb_text t s) h k in
    rw (Char-path c d e, ltb_text_total s t hs ks) refl
  where
    heads :
        (m n : ℕ) (a b : Bool)
        → (ltb m n || (m == n && a)) ≡ false
        → (ltb n m || (n == m && b)) ≡ false
        → (m ≡ n) × (a ≡ false) × (b ≡ false)
    heads m n a b h k = ground arith

-- The tables on ASCII, for examples.
pub below-IsScalar : (n : ℕ) → n < 55296 → IsScalar n
below-IsScalar n h = let e : compare n 55296 ≡ Ordering.lt = ground arith in rw e tt

shifted : (ℕ → Bool) → (ℕ → ℕ) → Char → Char
unfolding dec_lt
shifted p f c =
    if p (code c)
    then dite (dec_lt (f (code c)) 55296) (λ h. char (f (code c)) (below-IsScalar (f (code c)) h))
        (λ _. c)
    else c

instance abbrev pub ascii : Unicode
unfolding shifted
ascii = record {
  upper = shifted (λ n. leb 97 n && leb n 122) (λ n. n - 32);
  lower = shifted (λ n. leb 65 n && leb n 90) (λ n. n + 32);
  fold = shifted (λ n. leb 65 n && leb n 90) (λ n. n + 32);
  is_space = λ c. code c == 32 || (leb 9 (code c) && leb (code c) 13);
}

pub ascii-upper_fixed :
    (c : Char) → (leb 97 (code c) && leb (code c) 122) ≡ false → ascii.upper c ≡ c
unfolding shifted ascii
ascii-upper_fixed c h = if_false (leb 97 (code c) && leb (code c) 122) _ c h
