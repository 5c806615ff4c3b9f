-- ===== src/Policy/Decider.antt =====
-- backend/internal/policy/policy.go, Evaluate: which policy the decision is taken from.
use mathlib.Core.Path.{subst}
use mathlib.Core.Bool.{true≢false}
use mathlib.Core.List.{Memᴰ, Permᴰ}
use mathlib.Core.List.Permᴰ
use netra.Prelude.{
  ℕ, ◌≤◌, ◌<◌, ◌≡◌, refl, sym, ◌∙◌, Bool, true, false, ◌||◌, ◌⊎◌, inl, inr, List, [], ◌∷◌, All,
  All-perm, ℤ, ltb_ℤ, eqb_ℤ, ◌≤ℤ◌, leb, any, any-perm, IsSorted, sort_stable-IsSorted, ltb_text,
  Bool-cases, Unicode, if_false, arith, if◌then◌else◌,
}
use netra.Risk.Model.{Time}
use netra.Policy.Model.{severity, Policy, Request, Result}
use netra.Policy.Engine.{evaluates_before, new_engine, consider_one, consider, initial, evaluate}
use netra.Policy.Strictest.{applies, active, policies-perm, evaluate_live}
use netra.Policy.Order.{evaluates_before_asymm}

-- The decision and what is said of it are the policy's.
pub record Names (x : Result) (d : Policy) : Type 0 where
  pub decision : x.decision ≡ d.actions.decision
  pub reason : x.reason ≡ d.name
  pub policy_id : x.policy_id ≡ d.policy_id
  pub policy_version : x.policy_version ≡ d.version
  pub message : x.message ≡ d.actions.message

-- The second policy is less restrictive than the first, or as restrictive and considered no later.
abbrev pub Below : Policy → Policy → Type 0
Below d q =
    (severity q.actions.decision < severity d.actions.decision)
    ⊎ ((severity q.actions.decision ≡ severity d.actions.decision) × (q.priority ≤ℤ d.priority))

Below-trans : (d e q : Policy) → Below d e → Below e q → Below d q
Below-trans d e q h k = ground arith

Below-refl : (d : Policy) → Below d d
Below-refl d = inr (refl, omega arith)

-- The policies come with ascending priority numbers.
Ascending : List Policy → Type 0
Ascending [] = Unit
Ascending (p ∷ ps) = All (λ q. p.priority ≤ℤ q.priority) ps × Ascending ps

not_before : (p q : Policy) → evaluates_before q p ≡ false → p.priority ≤ℤ q.priority
unfolding evaluates_before
not_before p q h = by_key p.priority q.priority (ltb_text q.policy_id p.policy_id) h
  where
    by_key : (m n : ℤ) (s : Bool) → (if eqb_ℤ n m then s else ltb_ℤ n m) ≡ false → m ≤ℤ n
    by_key m n s h = ground arith

All-at_least :
    (m n : ℤ) (ps : List Policy)
    → m ≤ℤ n
    → All (λ q. n ≤ℤ q.priority) ps
    → All (λ q. m ≤ℤ q.priority) ps
All-at_least m n [] le h = tt
All-at_least m n (p ∷ ps) le (h, hs) = (omega arith, All-at_least m n ps le hs)

IsSorted-Ascending : (ps : List Policy) → IsSorted evaluates_before ps → Ascending ps
unfolding Ascending
IsSorted-Ascending [] h = tt
IsSorted-Ascending (p ∷ []) h = (tt, tt)
IsSorted-Ascending (p ∷ q ∷ ps) (follows, sorted) =
    let (after, rest) = IsSorted-Ascending (q ∷ ps) sorted in
    let first = not_before p q follows in
    ((first, All-at_least p.priority q.priority ps first after), (after, rest))

module _ ⦃u : Unicode⦄ (r : Request) where
  -- The decision is that of a matching policy of the list, and every other one that matches is less
  -- restrictive, or as restrictive with a priority number that is not larger.
  pub record IsDecided (x : Result) (ps : List Policy) : Type 0 where
    pub decider : Policy
    pub names : Names x decider
    pub among : Memᴰ decider ps
    pub hit : applies r decider ≡ true
    pub top : All (λ q. applies r q ≡ true → Below decider q) ps

  skipped : (x : Result) (q : Policy) → applies r q ≡ false → consider_one r x q ≡ x
  unfolding consider_one
  skipped x q h = if_false _ _ x h

  taken :
      (x : Result) (q : Policy)
      → applies r q ≡ true
      → severity x.decision ≤ severity q.actions.decision
      → Names (consider_one r x q) q
  unfolding consider_one
  taken x q h le =
      let e : leb (severity x.decision) (severity q.actions.decision) ≡ true = ground arith in
      rw (h, e)
        (record {
          decision = refl;
          reason = refl;
          policy_id = refl;
          policy_version = refl;
          message = refl;
        })

  passed_over :
      (x : Result) (d q : Policy)
      → applies r q ≡ true
      → Names x d
      → severity q.actions.decision < severity x.decision
      → Names (consider_one r x q) d
  unfolding consider_one
  passed_over x d q h names lt =
      let e : leb (severity x.decision) (severity q.actions.decision) ≡ false = ground arith in
      rw (h, e)
        (record {
          decision = names.decision;
          reason = names.reason;
          policy_id = names.policy_id;
          policy_version = names.policy_version;
          message = names.message;
        })

  -- A list in front of which a policy stands that the decider is not below.
  behind :
      (x : Result) (p q : Policy) (ps : List Policy) (i : IsDecided x (p ∷ ps))
      → (applies r q ≡ true → Below i.decider q)
      → IsDecided x (p ∷ q ∷ ps)
  behind x p q ps i below = record {
    decider = i.decider;
    names = i.names;
    among = later i.among;
    hit = i.hit;
    top = (i.top.0, (below, i.top.1));
  }
    where
      later : {d : Policy} → Memᴰ d (p ∷ ps) → Memᴰ d (p ∷ q ∷ ps)
      later (Memᴰ.head e) = Memᴰ.head e
      later (Memᴰ.tail m) = Memᴰ.tail (Memᴰ.tail m)

  in_front :
      (x : Result) (p : Policy) (ps : List Policy) (i : IsDecided x ps)
      → (applies r p ≡ true → Below i.decider p)
      → IsDecided x (p ∷ ps)
  in_front x p ps i below = record {
    decider = i.decider;
    names = i.names;
    among = Memᴰ.tail i.among;
    hit = i.hit;
    top = (below, i.top);
  }

  consider-IsDecided :
      (x : Result) (d : Policy) (ps : List Policy)
      → Names x d
      → applies r d ≡ true
      → All (λ q. d.priority ≤ℤ q.priority) ps
      → Ascending ps
      → IsDecided (consider r x ps) (d ∷ ps)
  unfolding consider Ascending
  consider-IsDecided x d [] names hit le asc = record {
    decider = d;
    names = names;
    among = Memᴰ.head refl;
    hit = hit;
    top = (λ h. Below-refl d, tt);
  }
  consider-IsDecided x d (q ∷ ps) names hit (le, les) (after, asc) =
      elim (Bool-cases (applies r q)) [
        | inr e ↦
            subst (λ y. IsDecided (consider r y ps) (d ∷ q ∷ ps)) (sym (skipped x q e))
              (behind (consider r x ps) d q ps (consider-IsDecided x d ps names hit les asc)
                (λ h. absurd (true≢false (sym h ∙ e))))
        | inl e ↦ elim (le-or-lt (severity x.decision) (severity q.actions.decision)) [
          | inl below ↦
              let i =
                consider-IsDecided (consider_one r x q) q ps (taken x q e below) e after asc in
              in_front (consider r (consider_one r x q) ps) d (q ∷ ps) i (λ h.
                Below-trans i.decider q d (i.top.0 e) (
                  earlier (severity d.actions.decision) (severity q.actions.decision) d.priority
                    q.priority
                    (subst (λ z. severity z ≤ severity q.actions.decision) names.decision below)
                    le))
          | inr above ↦
              let i =
                consider-IsDecided (consider_one r x q) d ps (passed_over x d q e names above) hit
                  les asc in
              behind (consider r (consider_one r x q) ps) d q ps i (λ h.
                Below-trans i.decider d q (i.top.0 hit) (
                  inl (subst (λ z. severity q.actions.decision < severity z) names.decision above)))
        ]
      ]
    where
      le-or-lt : (m n : ℕ) → (m ≤ n) ⊎ (n < m)
      le-or-lt m n = elim (Bool-cases (leb m n)) [
        | inl e ↦ inl (ground arith)
        | inr e ↦ inr (ground arith)
      ]

      earlier : (m n : ℕ) (a b : ℤ) → m ≤ n → a ≤ℤ b → (m < n) ⊎ ((m ≡ n) × (a ≤ℤ b))
      earlier m n a b le h = ground arith

  start-IsDecided :
      (x : Result) (ps : List Policy)
      → severity x.decision ≡ 0
      → Ascending ps
      → any (applies r) ps ≡ true
      → IsDecided (consider r x ps) ps
  unfolding consider Ascending
  start-IsDecided x [] zero asc h = cc
  start-IsDecided x (q ∷ ps) zero (after, asc) h = elim (Bool-cases (applies r q)) [
    | inl e ↦
        consider-IsDecided (consider_one r x q) q ps (taken x q e (omega (arith, zero))) e after asc
    | inr e ↦
        subst (λ y. IsDecided (consider r y ps) (q ∷ ps)) (sym (skipped x q e))
          (in_front (consider r x ps) q ps
            (start-IsDecided x ps zero asc (rest (applies r q) _ h e))
            (λ k. absurd (true≢false (sym k ∙ e))))
  ]
    where
      rest : (a b : Bool) → (a || b) ≡ true → a ≡ false → b ≡ true
      rest a b h e = ground arith

  Memᴰ-perm : {d : Policy} {ps qs : List Policy} → Permᴰ ps qs → Memᴰ d ps → Memᴰ d qs
  Memᴰ-perm Permᴰ.nil m = elim m [ ]
  Memᴰ-perm (Permᴰ.cons e p) (Memᴰ.head h) = Memᴰ.head (h ∙ e)
  Memᴰ-perm (Permᴰ.cons e p) (Memᴰ.tail m) = Memᴰ.tail (Memᴰ-perm p m)
  Memᴰ-perm (Permᴰ.swap e e') (Memᴰ.head h) = Memᴰ.tail (Memᴰ.head (h ∙ e))
  Memᴰ-perm (Permᴰ.swap e e') (Memᴰ.tail (Memᴰ.head h)) = Memᴰ.head (h ∙ e')
  Memᴰ-perm (Permᴰ.swap e e') (Memᴰ.tail (Memᴰ.tail m)) = Memᴰ.tail (Memᴰ.tail m)
  Memᴰ-perm (Permᴰ.trans p q) m = Memᴰ-perm q (Memᴰ-perm p m)

  new_engine-Ascending : (ps : List Policy) → Ascending (new_engine ps).policies
  unfolding new_engine
  new_engine-Ascending ps =
      IsSorted-Ascending _
        (sort_stable-IsSorted evaluates_before evaluates_before_asymm (active r ps))

  -- While the control plane is reachable and some enabled policy matches the request, the decision,
  -- its reason, its message and the policy and version that are named are those of one of them, and
  -- every other enabled policy that matches is less restrictive, or as restrictive with a priority
  -- number that is not larger.
  pub evaluate-IsDecided :
      (started finished : Time) (ps : List Policy)
      → r.degraded ≡ false
      → any (applies r) (active r ps) ≡ true
      → IsDecided (evaluate (new_engine ps) r started finished) (active r ps)
  evaluate-IsDecided started finished ps live some_hit =
      let perm = policies-perm r ps in
      let i =
        start-IsDecided (initial started) (new_engine ps).policies refl (new_engine-Ascending ps)
          (any-perm (applies r) perm ∙ some_hit) in
      subst (λ x. IsDecided x (active r ps))
        (sym (evaluate_live r started finished live (new_engine ps)))
        (record {
          decider = i.decider;
          names = record {
            decision = i.names.decision;
            reason = i.names.reason;
            policy_id = i.names.policy_id;
            policy_version = i.names.policy_version;
            message = i.names.message;
          };
          among = Memᴰ-perm perm i.among;
          hit = i.hit;
          top = All-perm (λ q. applies r q ≡ true → Below i.decider q) (Permᴰ.symm perm) i.top;
        })
