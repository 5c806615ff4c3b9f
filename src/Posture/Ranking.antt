-- ===== src/Posture/Ranking.antt =====
-- The ranking of `Weakest`.
use mathlib.Core.Path.{subst}
use mathlib.Core.List.{Permᴰ}
use mathlib.Core.List.Permᴰ
use netra.Prelude.{
  ℕ, zero, suc, ◌≡◌, refl, sym, Bool, true, false, ◌&&◌, List, [], ◌∷◌, ◌++◌, select, take,
  pos_part, length, ℤ, pos, ◌≤ℤ◌, ltb_ℤ, arith, Bool-cases, inl, inr, if_false, if◌then◌else◌,
}
use netra.Posture.Model.{Factor, Assessment, shortfall, move_up, rank_from, from_end, weakest}

-- Each factor's shortfall is at least the next one's.
abbrev pub NotAbove : Factor → List Factor → Type 0
NotAbove f [] = Unit
NotAbove f (g ∷ gs) = shortfall g ≤ℤ shortfall f

abbrev pub Falling : List Factor → Type 0
Falling [] = Unit
Falling (f ∷ fs) = NotAbove f fs × Falling fs

-- The ranked part, given from its end.
abbrev NotBelow : Factor → List Factor → Type 0
NotBelow f [] = Unit
NotBelow f (g ∷ gs) = shortfall f ≤ℤ shortfall g

abbrev Rising : List Factor → Type 0
Rising [] = Unit
Rising (f ∷ fs) = NotBelow f fs × Rising fs

lt_le : (a b : ℤ) → ltb_ℤ a b ≡ true → a ≤ℤ b
lt_le a b h = ground arith

ge_le : (a b : ℤ) → ltb_ℤ a b ≡ false → b ≤ℤ a
ge_le a b h = ground arith

NotBelow-move_up :
    (g f : Factor) (fs : List Factor)
    → shortfall g ≤ℤ shortfall f
    → NotBelow g fs
    → NotBelow g (move_up f fs)
unfolding move_up
NotBelow-move_up g f [] h k = h
NotBelow-move_up g f (x ∷ xs) h k = elim (Bool-cases (ltb_ℤ (shortfall x) (shortfall f))) [
  | inl e ↦ rw e k
  | inr e ↦ rw e h
]

Rising-move_up : (f : Factor) (fs : List Factor) → Rising fs → Rising (move_up f fs)
unfolding move_up
Rising-move_up f [] h = (tt, tt)
Rising-move_up f (g ∷ gs) (h, r) = elim (Bool-cases (ltb_ℤ (shortfall g) (shortfall f))) [
  | inl e ↦
      rw e (NotBelow-move_up g f gs (lt_le (shortfall g) (shortfall f) e) h, Rising-move_up f gs r)
  | inr e ↦ rw e (ge_le (shortfall g) (shortfall f) e, (h, r))
]

move_up-perm : (f : Factor) (fs : List Factor) → Permᴰ (move_up f fs) (f ∷ fs)
unfolding move_up
move_up-perm f [] = Permᴰ.refl (f ∷ [])
move_up-perm f (g ∷ gs) = elim (Bool-cases (ltb_ℤ (shortfall g) (shortfall f))) [
  | inl e ↦ rw e (Permᴰ.trans (Permᴰ.cons refl (move_up-perm f gs)) (Permᴰ.swap refl refl))
  | inr e ↦ rw e (Permᴰ.refl (f ∷ g ∷ gs))
]

rank_from-Rising : (ranked fs : List Factor) → Rising ranked → Rising (rank_from ranked fs)
unfolding rank_from
rank_from-Rising ranked [] h = h
rank_from-Rising ranked (f ∷ fs) h =
    rank_from-Rising (move_up f ranked) fs (Rising-move_up f ranked h)

-- A part that is given from its end, before a list that falls.
Meets : List Factor → List Factor → Type 0
Meets [] out = Unit
Meets (f ∷ fs) out = NotAbove f out

from_end-Falling :
    (fs out : List Factor) → Rising fs → Falling out → Meets fs out → Falling (from_end fs out)
unfolding Meets
from_end-Falling [] out h k m = k
from_end-Falling (f ∷ []) out h k m = (m, k)
from_end-Falling (f ∷ g ∷ gs) out (h, r) k m = from_end-Falling (g ∷ gs) (f ∷ out) r (m, k) h

to_front : (f : Factor) (fs out : List Factor) → Permᴰ (fs ++ f ∷ out) (f ∷ (fs ++ out))
to_front f [] out = Permᴰ.refl (f ∷ out)
to_front f (g ∷ gs) out = Permᴰ.trans (Permᴰ.cons refl (to_front f gs out)) (Permᴰ.swap refl refl)

perm-under :
    (fs : List Factor) {out out' : List Factor} → Permᴰ out out' → Permᴰ (fs ++ out) (fs ++ out')
perm-under [] h = h
perm-under (f ∷ fs) h = Permᴰ.cons refl (perm-under fs h)

from_end-perm : (fs out : List Factor) → Permᴰ (from_end fs out) (fs ++ out)
from_end-perm [] out = Permᴰ.refl out
from_end-perm (f ∷ fs) out = Permᴰ.trans (from_end-perm fs (f ∷ out)) (to_front f fs out)

rank_from-perm : (ranked fs : List Factor) → Permᴰ (rank_from ranked fs) (fs ++ ranked)
unfolding rank_from
rank_from-perm ranked [] = Permᴰ.refl ranked
rank_from-perm ranked (f ∷ fs) =
    Permᴰ.trans (rank_from-perm (move_up f ranked) fs)
      (Permᴰ.trans (perm-under fs (move_up-perm f ranked)) (to_front f fs ranked))

NotAbove-take : (n : ℕ) (f : Factor) (fs : List Factor) → NotAbove f fs → NotAbove f (take n fs)
NotAbove-take zero f fs h = tt
NotAbove-take (suc n) f [] h = tt
NotAbove-take (suc n) f (g ∷ gs) h = h

Falling-take : (n : ℕ) (fs : List Factor) → Falling fs → Falling (take n fs)
Falling-take zero fs h = tt
Falling-take (suc n) [] h = tt
Falling-take (suc n) (f ∷ fs) (h, k) = (NotAbove-take n f fs h, Falling-take n fs k)

Meets-nil : (fs : List Factor) → Meets fs []
unfolding Meets
Meets-nil [] = tt
Meets-nil (f ∷ fs) = tt

-- The factors that `Weakest` lists come with the largest shortfall first, whatever the limit.
pub weakest-Falling : (a : Assessment) (limit : ℤ) → Falling (weakest a limit)
unfolding weakest
weakest-Falling a limit =
    let ranked = rank_from [] (select (λ f. ltb_ℤ (pos 0) (shortfall f)) a.factors) in
    let falls =
      from_end-Falling ranked []
        (rank_from-Rising [] (select (λ f. ltb_ℤ (pos 0) (shortfall f)) a.factors) tt) tt
        (Meets-nil ranked) in
    either (ltb_ℤ (pos 0) limit && ltb_ℤ limit (pos (length (from_end ranked [])))) _ _
      (Falling-take (pos_part limit) (from_end ranked []) falls) falls
  where
    either :
        (b : Bool) (xs ys : List Factor) → Falling xs → Falling ys → Falling (if b then xs else ys)
    either true xs ys h k = h
    either false xs ys h k = k

-- Without a limit, `Weakest` lists exactly the factors with a shortfall, each as often as it occurs.
pub weakest-perm :
    (a : Assessment) (limit : ℤ)
    → limit ≤ℤ pos 0
    → Permᴰ (weakest a limit) (select (λ f. ltb_ℤ (pos 0) (shortfall f)) a.factors)
unfolding weakest
weakest-perm a limit h =
    let short = select (λ f. ltb_ℤ (pos 0) (shortfall f)) a.factors in
    let ranked = rank_from [] short in
    subst (λ out. Permᴰ out short) (sym (if_false _ _ _ (no_limit limit _ h)))
      (Permᴰ.trans (from_end-perm ranked [])
        (Permᴰ.trans (no_more ranked) (Permᴰ.trans (rank_from-perm [] short) (no_more short))))
  where
    no_limit : (limit : ℤ) (b : Bool) → limit ≤ℤ pos 0 → (ltb_ℤ (pos 0) limit && b) ≡ false
    no_limit limit b h = ground arith

    no_more : (fs : List Factor) → Permᴰ (fs ++ []) fs
    no_more [] = Permᴰ.nil
    no_more (f ∷ fs) = Permᴰ.cons refl (no_more fs)
