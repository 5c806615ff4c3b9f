-- ===== src/Policy/History.antt =====
-- backend/internal/policy/store.go: versions are never reused, and the latest enabled one is in force.
use mathlib.Core.Bool.{true≢false}
use netra.Prelude.{
  ◌≡◌, refl, sym, ap, ◌∙◌, String, Bool, true, false, ◌&&◌, ◌||◌, not, Option, none, some, List, [],
  ◌∷◌, ◌++◌, any, any-append, select, ◌⊎◌, inl, inr, ◌==ₛ◌, eq_iff, ℤ, pos, ◌+ℤ◌, ltb_ℤ, eqb_ℤ,
  eqb_ℤ→eq, ltb→lt, lt→ltb, int_laws, sort_stable, Bool-cases, if_true, if_false, arith, Unicode,
  if◌then◌else◌,
}
use netra.Risk.Model.{Time, Uuid}
use netra.Policy.Model.{Policy, Invalid, validate}
use netra.Policy.Versions.{
  Failure, invalid, database, greater, max_version, next_of, new_version, checked, create,
  is_superseded, active_versions,
}

-- Some row of the policy has a version that is not below n.
abbrev reaches : String → ℤ → List Policy → Bool
reaches policy_id n = any (λ (p : Policy). (p.policy_id ==ₛ policy_id) && not (ltb_ℤ p.version n))

below_later : (v n m : ℤ) → ltb_ℤ m n ≡ false → ltb_ℤ v n ≡ true → ltb_ℤ v m ≡ true
below_later v n m h k = ground arith

reaches_later :
    (policy_id : String) (n m : ℤ) (ps : List Policy)
    → ltb_ℤ m n ≡ false
    → reaches policy_id n ps ≡ false
    → reaches policy_id m ps ≡ false
reaches_later policy_id n m [] h k = refl
reaches_later policy_id n m (p ∷ ps) h k =
    step (p.policy_id ==ₛ policy_id) (ltb_ℤ p.version n) (ltb_ℤ p.version m) _ _
      (below_later p.version n m h) (reaches_later policy_id n m ps h) k
  where
    step :
        (a b c d e : Bool)
        → (b ≡ true → c ≡ true)
        → (d ≡ false → e ≡ false)
        → ((a && not b) || d) ≡ false
        → ((a && not c) || e) ≡ false
    step false b c d e f g h = g h
    step true true c d e f g h = rw (f refl) (g h)
    step true false c d e f g h = cc

none-reaches :
    (policy_id : String) (n : ℤ) (ps : List Policy)
    → max_version policy_id ps ≡ none
    → reaches policy_id n ps ≡ false
none-reaches policy_id n [] h = refl
none-reaches policy_id n (p ∷ ps) h = elim (Bool-cases (p.policy_id ==ₛ policy_id)) [
  | inl e ↦
      absurd (never (sym (if_true _ (some (greater p.version (max_version policy_id ps))) _ e) ∙ h))
  | inr e ↦
      ap (λ b. (b && not (ltb_ℤ p.version n)) || reaches policy_id n ps) e
      ∙ none-reaches policy_id n ps
          (sym (if_false _ (some (greater p.version (max_version policy_id ps))) _ e) ∙ h)
]
  where
    never : {v : ℤ} → ¬ (some v ≡ none)
    never h = cc

below_next : (v : ℤ) (o : Option ℤ) → ltb_ℤ v (next_of (some (greater v o))) ≡ true
below_next v none = lt→ltb _ _ (omega int_laws)
below_next v (some w) = elim (Bool-cases (ltb_ℤ v w)) [
  | inl e ↦
      ap (λ z. ltb_ℤ v (z +ℤ pos 1)) (if_true (ltb_ℤ v w) w v e)
      ∙ lt→ltb _ _ (omega (int_laws, ltb→lt _ _ e))
  | inr e ↦
      ap (λ z. ltb_ℤ v (z +ℤ pos 1)) (if_false (ltb_ℤ v w) w v e) ∙ lt→ltb _ _ (omega int_laws)
]

next_grows : (v w : ℤ) → ltb_ℤ (next_of (some (greater v (some w)))) (next_of (some w)) ≡ false
next_grows v w = elim (Bool-cases (ltb_ℤ v w)) [
  | inl e ↦
      ap (λ z. ltb_ℤ (z +ℤ pos 1) (w +ℤ pos 1)) (if_true (ltb_ℤ v w) w v e)
      ∙ irreflexive (w +ℤ pos 1)
  | inr e ↦
      ap (λ z. ltb_ℤ (z +ℤ pos 1) (w +ℤ pos 1)) (if_false (ltb_ℤ v w) w v e)
      ∙ elim (Bool-cases (ltb_ℤ (v +ℤ pos 1) (w +ℤ pos 1))) [
        | inl f ↦ absurd (true≢false (sym (earlier f) ∙ e))
        | inr f ↦ f
      ]
]
  where
    irreflexive : (z : ℤ) → ltb_ℤ z z ≡ false
    irreflexive z = ground arith

    earlier : ltb_ℤ (v +ℤ pos 1) (w +ℤ pos 1) ≡ true → ltb_ℤ v w ≡ true
    earlier f = lt→ltb _ _ (omega (int_laws, ltb→lt _ _ f))

reaches_more :
    (policy_id : String) (v : ℤ) (o : Option ℤ) (ps : List Policy)
    → max_version policy_id ps ≡ o
    → reaches policy_id (next_of o) ps ≡ false
    → reaches policy_id (next_of (some (greater v o))) ps ≡ false
reaches_more policy_id v none ps e h = none-reaches policy_id _ ps e
reaches_more policy_id v (some w) ps e h =
    reaches_later policy_id (next_of (some w)) (next_of (some (greater v (some w)))) ps
      (next_grows v w) h

-- No version of a policy reaches the next one.
reaches-next_of :
    (policy_id : String) (ps : List Policy)
    → reaches policy_id (next_of (max_version policy_id ps)) ps ≡ false
reaches-next_of policy_id [] = refl
reaches-next_of policy_id (p ∷ ps) =
    let rest = max_version policy_id ps in
    elim (Bool-cases (p.policy_id ==ₛ policy_id)) [
      | inl e ↦
          ap (λ o. reaches policy_id (next_of o) (p ∷ ps))
            (if_true _ (some (greater p.version rest)) rest e)
          ∙ both (p.policy_id ==ₛ policy_id) _ _ (below_next p.version rest)
              (reaches_more policy_id p.version rest ps refl (reaches-next_of policy_id ps))
      | inr e ↦
          ap (λ o. reaches policy_id (next_of o) (p ∷ ps))
            (if_false _ (some (greater p.version rest)) rest e)
          ∙ ap
              (λ b.
                (b && not (ltb_ℤ p.version (next_of rest))) || reaches policy_id (next_of rest) ps)
              e
          ∙ reaches-next_of policy_id ps
    ]
  where
    both : (a b c : Bool) → b ≡ true → c ≡ false → ((a && not b) || c) ≡ false
    both a b c h k = ground arith

-- No two rows have the same policy and version.
abbrev pub has_distinct_versions : List Policy → Bool
has_distinct_versions [] = true
has_distinct_versions (p ∷ ps) =
    not (any (λ (q : Policy). (q.policy_id ==ₛ p.policy_id) && eqb_ℤ q.version p.version) ps)
    && has_distinct_versions ps

data Outcome (table : List Policy) (row : Policy) : List Policy × (Failure ⊎ Policy) → Type 0 where
  refused : (e : Failure) → Outcome table row (table, inl e)
  created : Outcome table row (table ++ row ∷ [], inr row)

module _ ⦃u : Unicode⦄ (works : Bool) (table : List Policy) (id : Uuid) (now : Time)
    (created_by : Option Uuid) (p : Policy) where
  checked-Outcome :
      (works : Bool) (row : Policy) (o : Option Invalid)
      → Outcome table row (checked works table row o)
  checked-Outcome works row (some error) = refused (invalid error)
  checked-Outcome true row none = created
  checked-Outcome false row none = refused database

  create-Outcome :
      Outcome table (new_version table id now created_by p) (create works table id now created_by p)
  unfolding create
  create-Outcome = checked-Outcome works (new_version table id now created_by p) (validate p)

ltb_ℤ_irreflexive : (z : ℤ) → ltb_ℤ z z ≡ false
ltb_ℤ_irreflexive z = ground arith

-- Different, unless the first row's version reaches the second's.
not_same :
    (p row : Policy)
    → ((p.policy_id ==ₛ row.policy_id) && not (ltb_ℤ p.version row.version)) ≡ false
    → ((row.policy_id ==ₛ p.policy_id) && eqb_ℤ row.version p.version) ≡ false
not_same p row h = elim (Bool-cases (row.policy_id ==ₛ p.policy_id)) [
  | inr e ↦ ap (λ b. b && eqb_ℤ row.version p.version) e
  | inl e ↦
      ap (λ b. b && eqb_ℤ row.version p.version) e
      ∙ elim (Bool-cases (eqb_ℤ row.version p.version)) [
        | inr f ↦ f
        | inl f ↦
            let equal = eqb_ℤ→eq row.version p.version f in
            absurd (
              true≢false (
                sym (
                  ap (λ b. b && not (ltb_ℤ p.version row.version))
                    ((eq_iff p.policy_id row.policy_id).1
                      (sym ((eq_iff row.policy_id p.policy_id).0 e)))
                  ∙ ap not (ap (λ z. ltb_ℤ p.version z) equal ∙ ltb_ℤ_irreflexive p.version))
                ∙ h))
      ]
]

append_distinct :
    (ps : List Policy) (row : Policy)
    → reaches row.policy_id row.version ps ≡ false
    → has_distinct_versions ps ≡ true
    → has_distinct_versions (ps ++ row ∷ []) ≡ true
append_distinct [] row h k = refl
append_distinct (p ∷ ps) row h k =
    ap (λ b. not b && has_distinct_versions (ps ++ row ∷ []))
      (any-append (λ (q : Policy). (q.policy_id ==ₛ p.policy_id) && eqb_ℤ q.version p.version) ps
        (row ∷ []))
    ∙ still_true _ _ _ (first _ _ k) (not_same p row (left _ _ h))
        (append_distinct ps row (right _ _ h) (second _ _ k))
  where
    left : (a b : Bool) → (a || b) ≡ false → a ≡ false
    left a b h = ground arith

    right : (a b : Bool) → (a || b) ≡ false → b ≡ false
    right a b h = ground arith

    first : (a b : Bool) → (not a && b) ≡ true → a ≡ false
    first a b h = ground arith

    second : (a b : Bool) → (a && b) ≡ true → b ≡ true
    second a b h = ground arith

    still_true :
        (a b c : Bool) → a ≡ false → b ≡ false → c ≡ true → (not (a || (b || false)) && c) ≡ true
    still_true a b c h k l = ground arith

-- Create, whether it succeeds or fails, never gives a policy a version that it had before: no two
-- rows of the table have the same policy and version.
pub create_distinct :
    ⦃u : Unicode⦄
    → (works : Bool) (table : List Policy) (id : Uuid) (now : Time) (created_by : Option Uuid)
      (p : Policy)
    → has_distinct_versions table ≡ true
    → has_distinct_versions (create works table id now created_by p).0 ≡ true
create_distinct ⦃u⦄ works table id now created_by p h =
    kept (create works table id now created_by p) (create-Outcome works table id now created_by p)
  where
    kept :
        (x : List Policy × (Failure ⊎ Policy))
        → Outcome table (new_version table id now created_by p) x
        → has_distinct_versions x.0 ≡ true
    kept x (refused e) = h
    kept x created =
        append_distinct table (new_version table id now created_by p)
          (reaches-next_of p.policy_id table) h

select-append :
    (q : Policy → Bool) (ps : List Policy) (row : Policy)
    → q row ≡ false
    → select q (ps ++ row ∷ []) ≡ select q ps
select-append q [] row h = if_false _ _ _ h
select-append q (p ∷ ps) row h =
    ap (λ rest. if q p then p ∷ rest else rest) (select-append q ps row h)

select_same :
    (q r : Policy → Bool) (ps : List Policy)
    → ((p : Policy) → q p ≡ r p)
    → select q ps ≡ select r ps
select_same q r [] h = refl
select_same q r (p ∷ ps) h =
    ap (λ b. if b then p ∷ select q ps else select q ps) (h p)
    ∙ ap (λ rest. if r p then p ∷ rest else rest) (select_same q r ps h)

-- A row that is not enabled changes nothing of what is in force.
active_versions-append :
    (table : List Policy) (row : Policy)
    → row.enabled ≡ false
    → active_versions (table ++ row ∷ []) ≡ active_versions table
unfolding active_versions
active_versions-append table row h = ap (sort_stable _) (
    select-append _ table row (ap (λ b. b && not (is_superseded (table ++ row ∷ []) row)) h)
    ∙ select_same _ _ table (λ p.
      ap (λ b. p.enabled && not b)
        (any-append _ table (row ∷ [])
          ∙ ap
              (λ b.
                is_superseded table p
                || ((b && (row.policy_id ==ₛ p.policy_id) && ltb_ℤ p.version row.version) || false))
              h
          ∙ or_false (is_superseded table p))))
  where
    or_false : (b : Bool) → (b || false) ≡ b
    or_false b = ground arith

-- Creating a version that is disabled leaves the policies in force as they were: the latest enabled
-- version of the policy, if there is one, stays in force.
pub create_disabled :
    ⦃u : Unicode⦄
    → (works : Bool) (table : List Policy) (id : Uuid) (now : Time) (created_by : Option Uuid)
      (p : Policy)
    → p.enabled ≡ false
    → active_versions (create works table id now created_by p).0 ≡ active_versions table
create_disabled ⦃u⦄ works table id now created_by p h =
    kept (create works table id now created_by p) (create-Outcome works table id now created_by p)
  where
    kept :
        (x : List Policy × (Failure ⊎ Policy))
        → Outcome table (new_version table id now created_by p) x
        → active_versions x.0 ≡ active_versions table
    kept x (refused e) = refl
    kept x created = active_versions-append table (new_version table id now created_by p) h
