-- ===== src/Policy/Versions.antt =====
-- backend/internal/policy/store.go: Create, Active and EnsureDefaults on the table policies. The JSON
-- columns give back what was stored, so a row is a policy.
use netra.Prelude.{
  ℕ, suc, String, Bool, true, false, ◌&&◌, not, Option, none, some, List, [], ◌∷◌, ◌++◌, any,
  select, ◌⊎◌, inl, inr, ◌==ₛ◌, ltb_text, ℤ, pos, ◌+ℤ◌, ltb_ℤ, sort_stable, Unicode, if◌then◌else◌,
}
use netra.Risk.Model.{Time, Uuid}
use netra.Policy.Model.{Policy, Invalid, validate}
use netra.Policy.Defaults.{default_policies}

pub data Failure : Type 0 where
  invalid : Invalid → Failure
  database : Failure

abbrev pub greater : ℤ → Option ℤ → ℤ
greater v none = v
greater v (some w) = if ltb_ℤ v w then w else v

-- SELECT max(version) FROM policies WHERE policy_id = $1
abbrev pub max_version : String → List Policy → Option ℤ
max_version policy_id [] = none
max_version policy_id (p ∷ ps) =
    let rest = max_version policy_id ps in
    if p.policy_id ==ₛ policy_id then some (greater p.version rest) else rest

abbrev pub next_of : Option ℤ → ℤ
next_of none = pos 1
next_of (some v) = v +ℤ pos 1

abbrev pub new_version : List Policy → Uuid → Time → Option Uuid → Policy → Policy
new_version table id now created_by p = record p {
  id = id;
  version = next_of (max_version p.policy_id table);
  created_by = created_by;
  created_at = now;
}

abbrev pub insert_version : Bool → List Policy → Policy → List Policy × (Failure ⊎ Policy)
insert_version true table row = (table ++ row ∷ [], inr row)
insert_version false table row = (table, inl database)

module _ ⦃u : Unicode⦄ where
  abbrev pub checked :
      Bool → List Policy → Policy → Option Invalid → List Policy × (Failure ⊎ Policy)
  checked works table row (some error) = (table, inl (invalid error))
  checked works table row none = insert_version works table row

  -- `Create`; `works` says that the INSERT succeeds.
  unfoldable pub create :
      Bool → List Policy → Uuid → Time → Option Uuid → Policy → List Policy × (Failure ⊎ Policy)
  create works table id now created_by p =
      checked works table (new_version table id now created_by p) (validate p)

-- A later enabled version of the same policy is there.
abbrev pub is_superseded : List Policy → Policy → Bool
is_superseded table p =
    any (λ (q : Policy). q.enabled && (q.policy_id ==ₛ p.policy_id) && ltb_ℤ p.version q.version)
      table

-- The rows that SELECT DISTINCT ON (policy_id) ... WHERE enabled ORDER BY policy_id, version DESC gives.
unfoldable pub active_versions : List Policy → List Policy
active_versions table =
    sort_stable (λ a b. ltb_text a.policy_id b.policy_id)
      (select (λ (p : Policy). p.enabled && not (is_superseded table p)) table)

module _ ⦃u : Unicode⦄ (works : ℕ → Bool) (id : ℕ → Uuid) (now : Time) where
  -- The loop of EnsureDefaults, which stops at the first error: the number of policies created, and
  -- the error. The calls of Create are numbered.
  unfoldable pub create_all : ℕ → List Policy → List Policy → List Policy × (ℕ × Option Failure)
  unfolding create
  create_all count table [] = (table, (count, none))
  create_all count table (p ∷ ps) =
      let (later, outcome) = create (works count) table (id count) now none p in
      let rest = create_all (suc count) later ps in
      elim outcome [ inl error ↦ (later, (count, some error)) | inr row ↦ rest ]

  -- `EnsureDefaults`
  unfoldable pub ensure_defaults : List Policy → List Policy × (ℕ × Option Failure)
  unfolding create_all
  ensure_defaults [] = create_all 0 [] default_policies
  ensure_defaults (p ∷ ps) = (p ∷ ps, (0, none))
