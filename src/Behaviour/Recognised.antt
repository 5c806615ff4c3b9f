-- ===== src/Behaviour/Recognised.antt =====
-- backend/internal/behaviour/baseline.go: a baseline recognises what the user has done, and nothing else.
use netra.Prelude.{
  ℕ, ◌+◌, ◌/◌, ◌%◌, ◌<◌, ◌≡◌, refl, sym, ap, ◌∙◌, String, Bool, true, false, ◌&&◌, ◌||◌, not, List,
  [], ◌∷◌, any, length, ltb, leb, ◌==◌, ◌==ₛ◌, eq_iff, ℤ, Bool-cases, inl, inr, if_true, if_false,
  insert_sorted, sort_stable, arith, if◌then◌else◌,
}
use netra.Prelude.Double.{Double}
use netra.Risk.Model.{Time, Uuid}
use netra.Behaviour.Baseline.{
  Observation, Learned, contains, add_key, add_nonempty, add_all_nonempty, sorted_keys, hour_of,
  nothing_learned, learn, learn_all, build, is_typical_hour, is_known_device, is_known_application,
  is_known_network, minimum_observations,
}

any-insert_sorted :
    {A : Type 0} (less : A → A → Bool) (p : A → Bool) (x : A) (xs : List A)
    → any p (insert_sorted less x xs) ≡ (p x || any p xs)
any-insert_sorted less p x [] = refl
any-insert_sorted less p x (y ∷ ys) = ground (arith, any-insert_sorted less p x ys)

any-sort_stable :
    {A : Type 0} (less : A → A → Bool) (p : A → Bool) (xs : List A)
    → any p (sort_stable less xs) ≡ any p xs
any-sort_stable less p [] = refl
any-sort_stable less p (x ∷ xs) =
    any-insert_sorted less p x (sort_stable less xs)
    ∙ ap (λ b. p x || b) (any-sort_stable less p xs)

contains-sorted_keys :
    (keys : List String) (k : String) → contains (sorted_keys keys) k ≡ contains keys k
unfolding sorted_keys
contains-sorted_keys keys k = any-sort_stable _ (λ candidate. candidate ==ₛ k) keys

contains-add_key :
    (key k : String) (set : List String)
    → contains (add_key key set) k ≡ ((key ==ₛ k) || contains set k)
contains-add_key key k set = elim (Bool-cases (contains set key)) [
  | inl e ↦ ap (λ z. contains z k) (if_true _ set (key ∷ set) e) ∙ elim (Bool-cases (key ==ₛ k)) [
    | inl f ↦
        sym (ap (contains set) ((eq_iff key k).0 f)) ∙ e ∙ sym (ap (λ b. b || contains set k) f)
    | inr f ↦ sym (ap (λ b. b || contains set k) f)
  ]
  | inr e ↦ ap (λ z. contains z k) (if_false _ set (key ∷ set) e)
]

contains-add_nonempty :
    (key k : String) (set : List String)
    → contains (add_nonempty key set) k ≡ ((not (key ==ₛ "") && (key ==ₛ k)) || contains set k)
contains-add_nonempty key k set = ground (arith, contains-add_key key k set)

-- Is the name one of these, and not empty?
abbrev pub mentions : List String → String → Bool
mentions keys k = any (λ key. not (key ==ₛ "") && (key ==ₛ k)) keys

contains-add_all_nonempty :
    (keys : List String) (k : String) (set : List String)
    → contains (add_all_nonempty keys set) k ≡ (mentions keys k || contains set k)
contains-add_all_nonempty [] k set = refl
contains-add_all_nonempty (key ∷ keys) k set = ground (
  arith,
  contains-add_all_nonempty keys k (add_nonempty key set),
  contains-add_nonempty key k set,
)

-- The observations that started in an hour.
abbrev pub count_in : ℕ → List Observation → ℕ
count_in hour [] = 0
count_in hour (o ∷ os) = (if hour == hour_of o.started_at then 1 else 0) + count_in hour os

module _ {W : Type 0} ⦃d : Double W⦄ (uuid_text : Uuid → String) where
  hours-learn_all :
      (l : Learned W) (os : List Observation) (hour : ℕ)
      → (learn_all uuid_text l os).login_hours hour ≡ l.login_hours hour + count_in hour os
  unfolding learn_all learn
  hours-learn_all l [] hour = omega arith
  hours-learn_all l (o ∷ os) hour = hours-learn_all (learn uuid_text l o) os hour ∙ ground arith

  count-learn_all :
      (l : Learned W) (os : List Observation)
      → (learn_all uuid_text l os).observation_count ≡ l.observation_count + length os
  unfolding learn_all learn
  count-learn_all l [] = omega arith
  count-learn_all l (o ∷ os) = count-learn_all (learn uuid_text l o) os ∙ omega arith

  devices-learn_all :
      (l : Learned W) (os : List Observation) (k : String)
      → contains (learn_all uuid_text l os).devices k
        ≡ (any (λ (o : Observation). uuid_text o.device_id ==ₛ k) os || contains l.devices k)
  unfolding learn_all learn
  devices-learn_all l [] k = refl
  devices-learn_all l (o ∷ os) k =
      devices-learn_all (learn uuid_text l o) os k
      ∙ ground (arith, contains-add_key (uuid_text o.device_id) k l.devices)

  applications-learn_all :
      (l : Learned W) (os : List Observation) (k : String)
      → contains (learn_all uuid_text l os).applications k
        ≡ (any (λ (o : Observation). mentions o.applications k) os || contains l.applications k)
  unfolding learn_all learn
  applications-learn_all l [] k = refl
  applications-learn_all l (o ∷ os) k =
      applications-learn_all (learn uuid_text l o) os k
      ∙ ground (arith, contains-add_all_nonempty o.applications k l.applications)

  networks-learn_all :
      (l : Learned W) (os : List Observation) (k : String)
      → contains (learn_all uuid_text l os).networks k ≡ (
          any (λ (o : Observation). not (o.network ==ₛ "") && (o.network ==ₛ k)) os
          || contains l.networks k)
  unfolding learn_all learn
  networks-learn_all l [] k = refl
  networks-learn_all l (o ∷ os) k =
      networks-learn_all (learn uuid_text l o) os k
      ∙ ground (arith, contains-add_nonempty o.network k l.networks)

-- Two hours of the day are the same or neighbours, midnight included.
abbrev pub is_near : ℕ → ℕ → Bool
is_near a b = a == b || (a + 1) % 24 == b || (b + 1) % 24 == a

below_day : (n : ℕ) → n % 24 < 24
below_day n = omega arith

near_offsets :
    (hour at : ℕ)
    → hour < 24
    → at < 24
    → ((hour + 23) % 24 == at || (hour + 0) % 24 == at || (hour + 1) % 24 == at) ≡ is_near at hour
near_offsets hour at h k = ground arith

near_sum :
    (hour : ℕ) (os : List Observation)
    → hour < 24
    → any (λ offset. ltb 0 (count_in ((hour + offset) % 24) os)) (23 ∷ 0 ∷ 1 ∷ [])
      ≡ any (λ (o : Observation). is_near (hour_of o.started_at) hour) os
near_sum hour [] h = refl
near_sum hour (o ∷ os) h =
    let at = hour_of o.started_at in
    reorder ((hour + 23) % 24 == at) ((hour + 0) % 24 == at) ((hour + 1) % 24 == at) _ _ _ _ _ _
      (some_more ((hour + 23) % 24 == at) (count_in ((hour + 23) % 24) os))
      (some_more ((hour + 0) % 24 == at) (count_in ((hour + 0) % 24) os))
      (some_more ((hour + 1) % 24 == at) (count_in ((hour + 1) % 24) os))
    ∙ ap (λ b. b || any (λ offset. ltb 0 (count_in ((hour + offset) % 24) os)) (23 ∷ 0 ∷ 1 ∷ []))
        (near_offsets hour at h (below_day (o.started_at / 3600000000000)))
    ∙ ap (λ b. is_near at hour || b) (near_sum hour os h)
  where
    some_more : (b : Bool) (n : ℕ) → ltb 0 ((if b then 1 else 0) + n) ≡ (b || ltb 0 n)
    some_more true n = ground arith
    some_more false n = ground arith

    reorder :
        (a b c x y z p q r : Bool)
        → p ≡ (a || x)
        → q ≡ (b || y)
        → r ≡ (c || z)
        → (p || (q || (r || false))) ≡ ((a || b || c) || (x || (y || (z || false))))
    reorder a b c x y z p q r h k l = ground arith

-- A profile that was built from observations recognises a device exactly if one of them was on it,
-- and an application or a network exactly if it is named, not empty, in one of them.
pub build-contains :
    (W : Type 0) ⦃d : Double W⦄ (uuid_text : Uuid → String) (user_id : Uuid) (window_days : ℤ)
    (os : List Observation) (now : Time) (device_id : Uuid) (application network : String)
    → (is_known_device {W = W} uuid_text (build uuid_text user_id window_days os now) device_id
        ≡ any (λ (o : Observation). uuid_text o.device_id ==ₛ uuid_text device_id) os)
      × (is_known_application {W = W} (build uuid_text user_id window_days os now) application
          ≡ any (λ (o : Observation). mentions o.applications application) os)
      × (is_known_network {W = W} (build uuid_text user_id window_days os now) network
          ≡ any (λ (o : Observation). not (o.network ==ₛ "") && (o.network ==ₛ network)) os)
unfolding build is_known_device is_known_application is_known_network
build-contains W ⦃d⦄ uuid_text user_id window_days os now device_id application network =
    let l = learn_all {W = W} uuid_text (nothing_learned uuid_text) os in
    (
      contains-sorted_keys l.devices (uuid_text device_id)
          ∙ devices-learn_all {W = W} uuid_text (nothing_learned uuid_text) os (uuid_text device_id)
          ∙ or_false _,
      contains-sorted_keys l.applications application
          ∙ applications-learn_all {W = W} uuid_text (nothing_learned uuid_text) os application
          ∙ or_false _,
      contains-sorted_keys l.networks network
          ∙ networks-learn_all {W = W} uuid_text (nothing_learned uuid_text) os network
          ∙ or_false _,
    )
  where
    or_false : (b : Bool) → (b || false) ≡ b
    or_false b = ground arith

-- An hour is typical for a profile that was built from observations exactly if there are fewer
-- than five of them, or one of them started in that hour of the day or in a neighbouring one.
pub build-is_typical_hour :
    (W : Type 0) ⦃d : Double W⦄ (uuid_text : Uuid → String) (user_id : Uuid) (window_days : ℤ)
    (os : List Observation) (now t : Time)
    → is_typical_hour {W = W} (build uuid_text user_id window_days os now) t ≡ (
        ltb (length os) minimum_observations
        || any (λ (o : Observation). is_near (hour_of o.started_at) (hour_of t)) os)
unfolding build is_typical_hour
build-is_typical_hour W ⦃d⦄ uuid_text user_id window_days os now t =
    let l = learn_all {W = W} uuid_text (nothing_learned uuid_text) os in
    established_or l.observation_count (length os) _ _
      (count-learn_all {W = W} uuid_text (nothing_learned uuid_text) os)
      (three_counts l.login_hours (λ hour. count_in hour os) (hour_of t)
          (λ hour. hours-learn_all {W = W} uuid_text (nothing_learned uuid_text) os hour)
        ∙ near_sum (hour_of t) os (below_day (t / 3600000000000)))
  where
    established_or :
        (count n : ℕ) (x y : Bool)
        → count ≡ 0 + n
        → x ≡ y
        → (if not (leb minimum_observations count) then true else x)
          ≡ (ltb n minimum_observations || y)
    established_or count n x y h k = ground arith

    three_counts :
        (f g : ℕ → ℕ) (hour : ℕ)
        → ((h : ℕ) → f h ≡ 0 + g h)
        → any (λ offset. ltb 0 (f ((hour + offset) % 24))) (23 ∷ 0 ∷ 1 ∷ [])
          ≡ any (λ offset. ltb 0 (g ((hour + offset) % 24))) (23 ∷ 0 ∷ 1 ∷ [])
    three_counts f g hour h =
        ground (arith, h ((hour + 23) % 24), h ((hour + 0) % 24), h ((hour + 1) % 24))
