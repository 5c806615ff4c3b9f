-- ===== src/Policy/Order.antt =====
-- backend/internal/policy/policy.go, NewEngine: the order in which policies are considered.
use mathlib.Core.List.{Permᴰ}
use netra.Prelude.{
  ◌≡◌, ap, Bool, true, false, ◌&&◌, ◌||◌, List, [], ◌∷◌, All, ℤ, ltb_ℤ, eqb_ℤ, ◌==ₛ◌, eq_iff,
  ltb_text, ltb_text_asymm, ltb_text_trans, ltb_text_total, select, select-perm, Untied,
  sort_stable_order, Unicode, arith, if◌then◌else◌,
}
use netra.Risk.Model.{Time}
use netra.Policy.Model.{Policy, Request}
use netra.Policy.Engine.{evaluates_before, new_engine, evaluate}

-- The two policies have the same priority and the same identifier.
abbrev pub same_key : Policy → Policy → Bool
same_key p q = eqb_ℤ p.priority q.priority && (p.policy_id ==ₛ q.policy_id)

-- No two policies of the list have the same priority and the same identifier.
abbrev pub HaveOwnKeys : List Policy → Type 0
HaveOwnKeys [] = Unit
HaveOwnKeys (p ∷ ps) = All (λ q. same_key p q ≡ false) ps × HaveOwnKeys ps

-- The comparison of keys, with the one of the identifiers as a truth value.
abbrev by_key : ℤ → ℤ → Bool → Bool
by_key m n s = if eqb_ℤ m n then s else ltb_ℤ m n

by_key_asymm :
    (m n : ℤ) (s t : Bool) → (s ≡ true → t ≡ false) → by_key m n s ≡ true → by_key n m t ≡ false
by_key_asymm m n s t h k = ground arith

by_key_trans :
    (m n o : ℤ) (s t u : Bool)
    → (s ≡ true → t ≡ true → u ≡ true)
    → by_key m n s ≡ true
    → by_key n o t ≡ true
    → by_key m o u ≡ true
by_key_trans m n o s t u h k l = ground arith

by_key_total :
    (m n : ℤ) (s t e : Bool)
    → (s ≡ false → t ≡ false → e ≡ true)
    → (eqb_ℤ m n && e) ≡ false
    → (by_key m n s || by_key n m t) ≡ true
by_key_total m n s t e h k = ground arith

pub evaluates_before_asymm :
    (p q : Policy) → evaluates_before p q ≡ true → evaluates_before q p ≡ false
unfolding evaluates_before
evaluates_before_asymm p q h =
    by_key_asymm p.priority q.priority (ltb_text p.policy_id q.policy_id)
      (ltb_text q.policy_id p.policy_id) (ltb_text_asymm p.policy_id q.policy_id) h

evaluates_before_trans :
    (p q r : Policy)
    → evaluates_before p q ≡ true
    → evaluates_before q r ≡ true
    → evaluates_before p r ≡ true
unfolding evaluates_before
evaluates_before_trans p q r h k =
    by_key_trans p.priority q.priority r.priority (ltb_text p.policy_id q.policy_id)
      (ltb_text q.policy_id r.policy_id) (ltb_text p.policy_id r.policy_id)
      (ltb_text_trans p.policy_id q.policy_id r.policy_id) h k

evaluates_before_total :
    (p q : Policy) → same_key p q ≡ false → (evaluates_before p q || evaluates_before q p) ≡ true
unfolding evaluates_before
evaluates_before_total p q h =
    by_key_total p.priority q.priority (ltb_text p.policy_id q.policy_id)
      (ltb_text q.policy_id p.policy_id) (p.policy_id ==ₛ q.policy_id)
      (λ a b. (eq_iff p.policy_id q.policy_id).1 (ltb_text_total p.policy_id q.policy_id a b)) h

All-untied :
    (p : Policy) (ps : List Policy)
    → All (λ q. same_key p q ≡ false) ps
    → All (λ q. (evaluates_before p q || evaluates_before q p) ≡ true) ps
All-untied p [] h = tt
All-untied p (q ∷ ps) (h, hs) = (evaluates_before_total p q h, All-untied p ps hs)

HaveOwnKeys-Untied : (ps : List Policy) → HaveOwnKeys ps → Untied evaluates_before ps
HaveOwnKeys-Untied [] h = tt
HaveOwnKeys-Untied (p ∷ ps) (h, hs) = (All-untied p ps h, HaveOwnKeys-Untied ps hs)

-- The same policies give the same engine in whatever order they are stored, and so the same answer
-- to every request, its reason, policy, message and citations included, as long as no two of those
-- that are enabled have the same priority and the same identifier.
pub evaluate_order :
    ⦃u : Unicode⦄
    → (ps qs : List Policy) (r : Request) (started finished : Time) → Permᴰ ps qs
    → HaveOwnKeys (select (λ p. p.enabled) qs)
    → evaluate (new_engine ps) r started finished ≡ evaluate (new_engine qs) r started finished
unfolding new_engine
evaluate_order ⦃u⦄ ps qs r started finished h own =
    ap (λ (sorted : List Policy). evaluate (record { policies = sorted }) r started finished)
      (sort_stable_order evaluates_before evaluates_before_asymm evaluates_before_trans
        (select-perm (λ p. p.enabled) h) (HaveOwnKeys-Untied (select (λ p. p.enabled) qs) own))
