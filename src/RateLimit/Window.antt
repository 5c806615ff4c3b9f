-- ===== src/RateLimit/Window.antt =====
-- How many calls of one key are allowed within a window.
use Prim.Native.Nat.{min}
use netra.Prelude.{
  ℕ, suc, ◌+◌, ◌-◌, ◌≤◌, String, ◌≡◌, refl, sym, ap, ◌∙◌, Bool, true, false, none, some, List, [],
  ◌∷◌, ltb, ◌==ₛ◌, eq_iff, pos, leb_ℤ, arith, All, Bool-cases, inl, inr, if_true, if_false,
  if◌then◌else◌,
}
use netra.Risk.Model.{Time}
use netra.RateLimit.Limiter.{RateLimit, Bucket, Limiter, after, current, allow}

-- A call: its key and its time.
abbrev pub Call : Type 0
Call = String × Time

abbrev pub is_allowed : Limiter → Call → Bool
is_allowed l (key, now) = (allow l key now).1

abbrev pub after_call : Limiter → Call → Limiter
after_call l (key, now) = (allow l key now).0

-- The calls of a key in a sequence, and how many of them are allowed.
abbrev pub calls : String → List Call → ℕ
calls k [] = 0
calls k (c ∷ cs) = if c.0 ==ₛ k then suc (calls k cs) else calls k cs

unfoldable pub grants : String → Limiter → List Call → ℕ
grants k l [] = 0
grants k l (c ∷ cs) =
    let rest = grants k (after_call l c) cs in
    if c.0 ==ₛ k then (if is_allowed l c then suc rest else rest) else rest

-- Every call of the key is made before the time.
abbrev pub Until : String → Time → List Call → Type 0
Until k t = All (λ c. c.0 ≡ k → c.1 ≤ t)

eq_false_sym : (a b : String) → (a ==ₛ b) ≡ false → (b ==ₛ a) ≡ false
eq_false_sym a b h = elim (Bool-cases (b ==ₛ a)) [
  | inl e ↦ e ∙ sym ((eq_iff a b).1 (sym ((eq_iff b a).0 e))) ∙ h
  | inr e ↦ e
]

requests-after_call : (l : Limiter) (c : Call) → (after_call l c).limit ≡ l.limit
unfolding allow
requests-after_call l c = refl

buckets_other :
    (l : Limiter) (c : Call) (k : String)
    → (c.0 ==ₛ k) ≡ false
    → (after_call l c).buckets k ≡ l.buckets k
unfolding allow
buckets_other l c k h = if_false (k ==ₛ c.0) _ _ (eq_false_sym c.0 k h)

is_live : (l : Limiter) (b : Bucket) (t : Time) → t ≤ b.reset_at → current l (some b) t ≡ b
unfolding current
is_live l b t h = if_false (after t b.reset_at) _ _ (by_order t b.reset_at h)
  where
    by_order : (t r : ℕ) → t ≤ r → ltb r t ≡ false
    by_order t r h = ground arith

-- A call that counts in the bucket b: what it leaves, and whether it is allowed.
buckets_self :
    (l : Limiter) (c : Call) (k : String) (b : Bucket)
    → (c.0 ==ₛ k) ≡ true
    → current l (l.buckets c.0) c.1 ≡ b
    → (after_call l c).buckets k ≡ some (record b { count = b.count + 1 })
unfolding allow
buckets_self l c k b h e =
    if_true (k ==ₛ c.0) _ _ ((eq_iff k c.0).1 (sym ((eq_iff c.0 k).0 h)))
    ∙ ap (λ (entry : Bucket). some (record entry { count = entry.count + 1 })) e

is_allowed_self :
    (l : Limiter) (c : Call) (b : Bucket)
    → current l (l.buckets c.0) c.1 ≡ b
    → is_allowed l c ≡ leb_ℤ (pos (b.count + 1)) l.limit.requests
unfolding allow
is_allowed_self l c b e = ap (λ (entry : Bucket). leb_ℤ (pos (entry.count + 1)) l.limit.requests) e

step_granted :
    (n m r : ℕ) (ok : Bool)
    → ok ≡ leb_ℤ (pos (m + 1)) (pos r)
    → (if ok then suc (min n (r - (m + 1))) else min n (r - (m + 1))) ≡ min (suc n) (r - m)
step_granted n m r ok h = ground arith

grants-counted :
    (k : String) (l : Limiter) (c : Call) (b : Bucket) (r : ℕ) (cs : List Call)
    → l.limit.requests ≡ pos r
    → (c.0 ==ₛ k) ≡ true
    → current l (l.buckets c.0) c.1 ≡ b
    → grants k (after_call l c) cs ≡ min (calls k cs) (r - (b.count + 1))
    → grants k l (c ∷ cs) ≡ min (suc (calls k cs)) (r - b.count)
unfolding grants
grants-counted k l c b r cs hr e hb rest =
    if_true (c.0 ==ₛ k) _ _ e
    ∙ ap (λ n. if is_allowed l c then suc n else n) rest
    ∙ step_granted (calls k cs) b.count r (is_allowed l c)
        (is_allowed_self l c b hb ∙ ap (leb_ℤ (pos (b.count + 1))) hr)

-- Within a window, with b the key's bucket and r the limit, a sequence of calls that all fall in the
-- window is allowed exactly as often as it calls, up to what is left of the limit; the calls of
-- other keys, at any time, do not matter.
pub grants-in_window :
    (k : String) (l : Limiter) (b : Bucket) (r : ℕ) (cs : List Call)
    → l.limit.requests ≡ pos r
    → l.buckets k ≡ some b
    → Until k b.reset_at cs
    → grants k l cs ≡ min (calls k cs) (r - b.count)
unfolding grants
grants-in_window k l b r [] hr hb h = ground arith
grants-in_window k l b r (c ∷ cs) hr hb (h, hs) = elim (Bool-cases (c.0 ==ₛ k)) [
  | inr e ↦
      if_false (c.0 ==ₛ k) _ _ e
      ∙ grants-in_window k (after_call l c) b r cs
          (ap RateLimit.requests (requests-after_call l c) ∙ hr) (buckets_other l c k e ∙ hb) hs
      ∙ ap (λ n. min n (r - b.count)) (sym (if_false (c.0 ==ₛ k) _ _ e))
  | inl e ↦
      let here =
        ap (λ o. current l o c.1) (ap l.buckets ((eq_iff c.0 k).0 e) ∙ hb)
        ∙ is_live l b c.1 (h ((eq_iff c.0 k).0 e)) in
      grants-counted k l c b r cs hr e here (
        grants-in_window k (after_call l c) (record b { count = b.count + 1 }) r cs
          (ap RateLimit.requests (requests-after_call l c) ∙ hr) (buckets_self l c k b e here) hs)
      ∙ ap (λ n. min n (r - b.count)) (sym (if_true (c.0 ==ₛ k) _ _ e))
]

is_opened :
    (l : Limiter) (k : String) (t : Time)
    → l.buckets k ≡ none
    → current l (l.buckets k) t ≡ (record { count = 0; reset_at = t + l.limit.window })
unfolding current
is_opened l k t h = ap (λ o. current l o t) h

-- From a limiter with no bucket for the key and a limit of r calls, the calls made from a first one up to one
-- window later are allowed as often as the key calls, up to r.
pub grants-fresh :
    (k : String) (l : Limiter) (r : ℕ) (t : Time) (cs : List Call)
    → l.limit.requests ≡ pos r
    → l.buckets k ≡ none
    → Until k (t + l.limit.window) cs
    → grants k l ((k, t) ∷ cs) ≡ min (suc (calls k cs)) r
grants-fresh k l r t cs hr hb hs =
    let opened : Bucket = record { count = 0; reset_at = t + l.limit.window } in
    let same = (eq_iff k k).1 refl in
    grants-counted k l (k, t) opened r cs hr same (is_opened l k t hb)
      (grants-in_window k (after_call l (k, t)) (record opened { count = 1 }) r cs
        (ap RateLimit.requests (requests-after_call l (k, t)) ∙ hr)
        (buckets_self l (k, t) k opened same (is_opened l k t hb)) hs)
    ∙ ap (min (suc (calls k cs))) (minus_zero r)
  where
    minus_zero : (r : ℕ) → r - 0 ≡ r
    minus_zero r = omega arith
