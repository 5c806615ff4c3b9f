-- ===== src/Prelude/Sort.antt =====
-- sort.SliceStable of package sort: the stable sort by a comparison. Its result does not depend on
-- the algorithm, so it is written as an insertion sort.
use mathlib.Core.Path.{◌≡◌, refl, sym, ap, subst, ◌∙◌}
use mathlib.Core.Logic.{inl, inr}
use mathlib.Core.Bool.{Bool, true, false, ◌||◌}
use mathlib.Core.List.{List, [], ◌∷◌, Memᴰ, Permᴰ}
use mathlib.Core.List.Permᴰ
use native.Mathlib.Omega.{arith}
use netra.Prelude.Tests.{if◌then◌else◌, Bool-cases}
use netra.Prelude.Lists.{All, any, select}
use netra.Prelude.Int.{ℤ, +ℤ_left_comm, sum_by}

module _ {ℓ} {A : Type ℓ} where
  -- `x` stood before the items of the list, so it stays before those that are not less than it.
  abbrev pub insert_sorted : (A → A → Bool) → A → List A → List A
  insert_sorted less x [] = x ∷ []
  insert_sorted less x (y ∷ ys) = if less y x then y ∷ insert_sorted less x ys else x ∷ y ∷ ys

  abbrev pub sort_stable : (A → A → Bool) → List A → List A
  sort_stable less [] = []
  sort_stable less (x ∷ xs) = insert_sorted less x (sort_stable less xs)

  -- No item is less than the one before it.
  abbrev pub FollowsIn : (A → A → Bool) → A → List A → Type 0
  FollowsIn less x [] = Unit
  FollowsIn less x (y ∷ ys) = less y x ≡ false

  abbrev pub IsSorted : (A → A → Bool) → List A → Type 0
  IsSorted less [] = Unit
  IsSorted less (x ∷ xs) = FollowsIn less x xs × IsSorted less xs

module _ {ℓ} {A : Type ℓ} (less : A → A → Bool) where
  pub insert_sorted-perm : (x : A) (xs : List A) → Permᴰ (insert_sorted less x xs) (x ∷ xs)
  insert_sorted-perm x [] = Permᴰ.refl (x ∷ [])
  insert_sorted-perm x (y ∷ ys) = elim (Bool-cases (less y x)) [
    | inl e ↦ rw e (Permᴰ.trans (Permᴰ.cons refl (insert_sorted-perm x ys)) (Permᴰ.swap refl refl))
    | inr e ↦ rw e (Permᴰ.refl (x ∷ y ∷ ys))
  ]

  pub sort_stable-perm : (xs : List A) → Permᴰ (sort_stable less xs) xs
  sort_stable-perm [] = Permᴰ.nil
  sort_stable-perm (x ∷ xs) =
      Permᴰ.trans (insert_sorted-perm x (sort_stable less xs))
        (Permᴰ.cons refl (sort_stable-perm xs))

  FollowsIn-insert_sorted :
      (y x : A) (ys : List A)
      → less x y ≡ false
      → FollowsIn less y ys
      → FollowsIn less y (insert_sorted less x ys)
  FollowsIn-insert_sorted y x [] h f = h
  FollowsIn-insert_sorted y x (z ∷ zs) h f = ground arith

  module _ (asymm : (x y : A) → less x y ≡ true → less y x ≡ false) where
    pub insert_sorted-IsSorted :
        (x : A) (xs : List A) → IsSorted less xs → IsSorted less (insert_sorted less x xs)
    insert_sorted-IsSorted x [] h = (tt, tt)
    insert_sorted-IsSorted x (y ∷ ys) h = elim (Bool-cases (less y x)) [
      | inl e ↦
          rw e (FollowsIn-insert_sorted y x ys (asymm y x e) h.0, insert_sorted-IsSorted x ys h.1)
      | inr e ↦ rw e (e, h)
    ]

    pub sort_stable-IsSorted : (xs : List A) → IsSorted less (sort_stable less xs)
    sort_stable-IsSorted [] = tt
    sort_stable-IsSorted (x ∷ xs) =
        insert_sorted-IsSorted x (sort_stable less xs) (sort_stable-IsSorted xs)

module _ {ℓ} {A : Type ℓ} where
  pub sum_by-perm : (f : A → ℤ) {xs ys : List A} → Permᴰ xs ys → sum_by f xs ≡ sum_by f ys
  unfolding sum_by
  sum_by-perm f Permᴰ.nil = refl
  sum_by-perm f (Permᴰ.cons e p) = rw (e, sum_by-perm f p)
  sum_by-perm f (Permᴰ.swap {l = l} e e') = rw (e, e') (+ℤ_left_comm _ _ (sum_by f l))
  sum_by-perm f (Permᴰ.trans p q) = sum_by-perm f p ∙ sum_by-perm f q

  pub any-perm : (p : A → Bool) {xs ys : List A} → Permᴰ xs ys → any p xs ≡ any p ys
  any-perm p Permᴰ.nil = refl
  any-perm p (Permᴰ.cons e h) = rw (e, any-perm p h)
  any-perm p (Permᴰ.swap e e') = rw (e, e') (ground arith)
  any-perm p (Permᴰ.trans h k) = any-perm p h ∙ any-perm p k

  select-cons :
      (p : A → Bool) (x : A) (xs ys : List A)
      → Permᴰ (select p xs) (select p ys)
      → Permᴰ (select p (x ∷ xs)) (select p (x ∷ ys))
  select-cons p x xs ys h = elim (Bool-cases (p x)) [
    | inl e ↦ rw e (Permᴰ.cons refl h)
    | inr e ↦ rw e h
  ]

  select-swap :
      (p : A → Bool) (x y : A) (l : List A) → Permᴰ (select p (x ∷ y ∷ l)) (select p (y ∷ x ∷ l))
  select-swap p x y l = elim (Bool-cases (p x)) [
    | inl e ↦ elim (Bool-cases (p y)) [
      | inl f ↦ rw (e, f) (Permᴰ.swap refl refl)
      | inr f ↦ rw (e, f) (Permᴰ.refl _)
    ]
    | inr e ↦ elim (Bool-cases (p y)) [
      | inl f ↦ rw (e, f) (Permᴰ.refl _)
      | inr f ↦ rw (e, f) (Permᴰ.refl _)
    ]
  ]

  pub All-perm {κ} : (P : A → Type κ) {xs ys : List A} → Permᴰ xs ys → All P ys → All P xs
  All-perm P Permᴰ.nil h = h
  All-perm P (Permᴰ.cons e p) h = (rw e h.0, All-perm P p h.1)
  All-perm P (Permᴰ.swap e e') h = (rw e h.1.0, (rw e' h.0, h.1.1))
  All-perm P (Permᴰ.trans p q) h = All-perm P p (All-perm P q h)

  pub select-perm :
      (p : A → Bool) {xs ys : List A} → Permᴰ xs ys → Permᴰ (select p xs) (select p ys)
  select-perm p Permᴰ.nil = Permᴰ.nil
  select-perm p (Permᴰ.cons {l₁ = l} {l₂ = m} e h) = rw e (select-cons p _ l m (select-perm p h))
  select-perm p (Permᴰ.swap {l = l} e e') = rw (e, e') (select-swap p _ _ l)
  select-perm p (Permᴰ.trans h k) = Permᴰ.trans (select-perm p h) (select-perm p k)

  pub mem-select :
      (p : A → Bool) (a : A) (xs : List A) → p a ≡ true → Memᴰ a xs → Memᴰ a (select p xs)
  mem-select p a [] h m = elim m [ ]
  mem-select p a (x ∷ xs) h (Memᴰ.head e) = rw (← e, h) (Memᴰ.head refl)
  mem-select p a (x ∷ xs) h (Memᴰ.tail m) = elim (Bool-cases (p x)) [
    | inl e ↦ rw e (Memᴰ.tail (mem-select p a xs h m))
    | inr e ↦ rw e (mem-select p a xs h m)
  ]

  pub any-mem : (p : A → Bool) (a : A) (xs : List A) → p a ≡ true → Memᴰ a xs → any p xs ≡ true
  any-mem p a [] h m = elim m [ ]
  any-mem p a (x ∷ xs) h (Memᴰ.head e) = rw (← e, h) refl
  any-mem p a (x ∷ xs) h (Memᴰ.tail m) = let rest = any-mem p a xs h m in ground arith

-- No two items of the list are tied: the comparison orders them, one way or the other.
abbrev pub Untied {ℓ} : {A : Type ℓ} → (A → A → Bool) → List A → Type 0
Untied less [] = Unit
Untied less (x ∷ xs) = All (λ y. (less x y || less y x) ≡ true) xs × Untied less xs

-- Without ties, the sorted list does not depend on the order of the items.
module _ {ℓ} {A : Type ℓ} (less : A → A → Bool)
    (asymm : (x y : A) → less x y ≡ true → less y x ≡ false)
    (ordered : (x y z : A) → less x y ≡ true → less y z ≡ true → less x z ≡ true) where
  insert_sorted_comm :
      (x y : A) (l : List A)
      → less x y ≡ true
      → insert_sorted less x (insert_sorted less y l)
        ≡ insert_sorted less y (insert_sorted less x l)
  insert_sorted_comm x y [] h = rw (h, asymm x y h) refl
  insert_sorted_comm x y (z ∷ zs) h = elim (Bool-cases (less z x)) [
    | inl zx ↦ rw (zx, ordered z x y zx h, zx) (ap (λ l. z ∷ l) (insert_sorted_comm x y zs h))
    | inr zx ↦ elim (Bool-cases (less z y)) [
      | inl zy ↦ rw (zx, zy, zx, h) refl
      | inr zy ↦ rw (zx, zy, asymm x y h, h) refl
    ]
  ]

  either_way : (x y : A) → (less x y || less y x) ≡ true → (less y x || less x y) ≡ true
  either_way x y h = ground arith

  untied_comm :
      (x y : A) (l : List A)
      → (less x y || less y x) ≡ true
      → insert_sorted less x (insert_sorted less y l)
        ≡ insert_sorted less y (insert_sorted less x l)
  untied_comm x y l h = elim (Bool-cases (less x y)) [
    | inl e ↦ insert_sorted_comm x y l e
    | inr e ↦ sym (insert_sorted_comm y x l (other (less x y) (less y x) h e))
  ]
    where
      other : (a b : Bool) → (a || b) ≡ true → a ≡ false → b ≡ true
      other a b h k = ground arith

  moved :
      {x y : A} (l : List A)
      → x ≡ y
      → All (λ z. (less x z || less z x) ≡ true) l
      → All (λ z. (less y z || less z y) ≡ true) l
  moved l e h = subst (λ x. All (λ z. (less x z || less z x) ≡ true) l) e h

  Untied-perm : {xs ys : List A} → Permᴰ xs ys → Untied less ys → Untied less xs
  Untied-perm Permᴰ.nil u = tt
  Untied-perm (Permᴰ.cons e p) (all, u) =
      (rw e (All-perm (λ y. (less _ y || less y _) ≡ true) p all), Untied-perm p u)
  Untied-perm (Permᴰ.swap {l = l} e e') ((xy, all), (all', u)) =
      ((rw (e, e') (either_way _ _ xy), moved l (sym e) all'), (moved l (sym e') all, u))
  Untied-perm (Permᴰ.trans p q) u = Untied-perm p (Untied-perm q u)

  pub sort_stable_order :
      {xs ys : List A} → Permᴰ xs ys → Untied less ys → sort_stable less xs ≡ sort_stable less ys
  sort_stable_order Permᴰ.nil u = refl
  sort_stable_order (Permᴰ.cons e p) (all, u) = rw (e, sort_stable_order p u) refl
  sort_stable_order (Permᴰ.swap {l = l} e e') ((xy, all), u) =
      rw (e, e') (untied_comm _ _ (sort_stable less l) (either_way _ _ xy))
  sort_stable_order (Permᴰ.trans p q) u =
      sort_stable_order p (Untied-perm q u) ∙ sort_stable_order q u
