-- ===== src/Device/Token.antt =====
-- An enrollment token enrolls one device: backend/internal/device/store.go, Enroll.
use mathlib.Core.Bool.{true≢false}
use netra.Prelude.{
  ◌≡◌, refl, sym, ap, ◌∙◌, String, Bool, true, false, ◌&&◌, Option, none, some, List, [], ◌∷◌, ◌++◌,
  ℤ, Unicode, ◌==◌, ◌⊎◌, inl, inr, Bool-cases, if_true, if_false, if◌then◌else◌, arith,
}
use netra.Risk.Model.{Time, Uuid}
use netra.Audit.Chain.{Bytes, equal_hash}
use netra.Device.Store.{
  Device, EnrollRequest, Token, Tables, Failure, lifetime, database, Fault, find_token, update,
  is_none, mark_used, issue_token, enroll, heartbeat, revoke,
}
use netra.Device.Enrollment.{Outcome, refused, accepted, unanswered, enroll-Outcome, is_enrolled}
use netra.Device.Operations.{
  Operation, issuing, enrolling, beating, revoking, apply, apply_all, id_refl,
}

some_inj : {A : Type 0} {a b : A} → some a ≡ some b → a ≡ b
some_inj h = cc

find_token-update :
    (p : Token → Bool) (f : Token → Token) (hash : Bytes) (ts : List Token) (t : Token)
    → ((s : Token) → (f s).token_hash ≡ s.token_hash)
    → find_token hash ts ≡ some t
    → find_token hash (update p f ts) ≡ some (if p t then f t else t)
unfolding find_token
find_token-update p f hash [] t k h = cc
find_token-update p f hash (x ∷ xs) t k h =
    let kept : (if p x then f x else x).token_hash ≡ x.token_hash = elim (Bool-cases (p x)) [
      | inl e ↦ ap (λ (z : Token). z.token_hash) (if_true (p x) (f x) x e) ∙ k x
      | inr e ↦ ap (λ (z : Token). z.token_hash) (if_false (p x) (f x) x e)
    ] in
    elim (Bool-cases (equal_hash x.token_hash hash)) [
      | inl c ↦
          let same : x ≡ t = some_inj (sym (if_true _ _ _ c) ∙ h) in
          if_true _ _ _ (ap (λ z. equal_hash z hash) kept ∙ c)
          ∙ ap (λ z. some (if p z then f z else z)) same
      | inr c ↦
          if_false _ _ _ (ap (λ z. equal_hash z hash) kept ∙ c)
          ∙ find_token-update p f hash xs t k (sym (if_false _ _ _ c) ∙ h)
    ]

find_token-append :
    (hash : Bytes) (ts : List Token) (s t : Token)
    → find_token hash ts ≡ some t
    → find_token hash (ts ++ s ∷ []) ≡ some t
unfolding find_token
find_token-append hash [] s t h = cc
find_token-append hash (x ∷ xs) s t h = elim (Bool-cases (equal_hash x.token_hash hash)) [
  | inl c ↦ if_true _ _ _ c ∙ sym (if_true _ _ _ c) ∙ h
  | inr c ↦ if_false _ _ _ c ∙ find_token-append hash xs s t (sym (if_false _ _ _ c) ∙ h)
]

-- The token of a digest is there, and its use is recorded.
abbrev Spent : Bytes → List Token → Type 0
Spent hash ts = (t : Token) × (find_token hash ts ≡ some t) × (is_none t.used_at ≡ false)

mark_used_stays :
    (b : Bool) (now : Time) (id : Uuid) (t : Token)
    → is_none t.used_at ≡ false
    → is_none (if b then mark_used now id t else t).used_at ≡ false
mark_used_stays true now id t h = refl
mark_used_stays false now id t h = h

update-Spent :
    (hash : Bytes) (ts : List Token) (p : Token → Bool) (now : Time) (id : Uuid)
    → Spent hash ts
    → Spent hash (update p (mark_used now id) ts)
update-Spent hash ts p now id (t, h, used) = (
  if p t then mark_used now id t else t,
  find_token-update p (mark_used now id) hash ts t (λ s. refl) h,
  mark_used_stays (p t) now id t used,
)

module _ ⦃u : Unicode⦄ where
  enrolled-Spent :
      {db : Tables} {now : Time} {id : Uuid} {r : EnrollRequest} {digest : Bytes} (hash : Bytes)
      (x : Tables × (Failure ⊎ Device))
      → Outcome db now id r digest x
      → Spent hash db.tokens
      → Spent hash x.0.tokens
  enrolled-Spent hash x (refused f) s = s
  enrolled-Spent {db} {now} {id} hash x (accepted t k a n) s =
      update-Spent hash db.tokens (λ z. z.id == t.id) now id s
  enrolled-Spent {db} {now} {id} hash x (unanswered t k a n) s =
      update-Spent hash db.tokens (λ z. z.id == t.id) now id s

  -- A success spends the token it was made with.
  success-Spent :
      {db : Tables} {now : Time} {id : Uuid} {r : EnrollRequest} {hash : Bytes}
      (x : Tables × (Failure ⊎ Device))
      → Outcome db now id r hash x
      → is_enrolled x.1 ≡ true
      → Spent hash x.0.tokens
  success-Spent x (refused f) h = cc
  success-Spent x (unanswered t k a n) h = cc
  success-Spent {db} {now} {id} {r} {hash} x (accepted t k a n) h = (
    mark_used now id t,
    find_token-update (λ z. z.id == t.id) (mark_used now id) hash db.tokens t (λ s. refl) k
        ∙ ap some (if_true _ (mark_used now id t) t (id_refl t.id)),
    refl,
  )

  unfoldable issued : Tables → Token → Bool → Bool → Tables × Option Failure
  issued db s out_of_range is_new =
      if out_of_range
      then (db, some lifetime)
      else if is_new
      then (record db { tokens = db.tokens ++ s ∷ [] }, none)
      else (db, some database)

  find_token-issue :
      (db : Tables) (hash : Bytes) (s t : Token) (out_of_range is_new : Bool)
      → find_token hash db.tokens ≡ some t
      → find_token hash (issued db s out_of_range is_new).0.tokens ≡ some t
  unfolding issued
  find_token-issue db hash s t true is_new h = h
  find_token-issue db hash s t false true h = find_token-append hash db.tokens s t h
  find_token-issue db hash s t false false h = h

  issue-Spent :
      (db : Tables) (now : Time) (id : Uuid) (digest : Bytes) (by : Option Uuid) (label : String)
      (ttl : ℤ) (hash : Bytes)
      → Spent hash db.tokens
      → Spent hash (issue_token db now id digest by label ttl).0.tokens
  unfolding issue_token issued
  issue-Spent db now id digest by label ttl hash (t, h, used) =
      (t, find_token-issue db hash _ t _ (is_none (find_token digest db.tokens)) h, used)

  apply-Spent :
      (hash : Bytes) (db : Tables) (o : Operation)
      → Spent hash db.tokens
      → Spent hash (apply db o).tokens
  unfolding apply heartbeat revoke
  apply-Spent hash db (issuing now id digest by label ttl) s =
      issue-Spent db now id digest by label ttl hash s
  apply-Spent hash db (enrolling fault now id r digest) s =
      enrolled-Spent hash (enroll fault db now id r digest)
        (enroll-Outcome db now id r digest fault) s
  apply-Spent hash db (beating now id version) s = s
  apply-Spent hash db (revoking now id reason) s = s

  apply_all-Spent :
      (hash : Bytes) (db : Tables) (os : List Operation)
      → Spent hash db.tokens
      → Spent hash (apply_all db os).tokens
  unfolding apply_all
  apply_all-Spent hash db [] s = s
  apply_all-Spent hash db (o ∷ os) s =
      apply_all-Spent hash (apply db o) os (apply-Spent hash db o s)

  Spent-not_enrolled :
      {db : Tables} {now : Time} {id : Uuid} {r : EnrollRequest} {hash : Bytes}
      (x : Tables × (Failure ⊎ Device))
      → Outcome db now id r hash x
      → Spent hash db.tokens
      → is_enrolled x.1 ≡ false
  Spent-not_enrolled x (refused f) s = refl
  Spent-not_enrolled x (unanswered t k a n) s = refl
  Spent-not_enrolled {now = now} x (accepted t k a n) (s, h, used) = absurd (
      true≢false (
        sym (first_true (is_none t.used_at) _ a)
        ∙ ap (λ (z : Token). is_none z.used_at) (some_inj (sym k ∙ h))
        ∙ used))
    where
      first_true : (a b : Bool) → (a && b) ≡ true → a ≡ true
      first_true a b h = ground arith

  -- A token with which a device has been enrolled enrolls no second one: whatever the store does in
  -- between, and whoever tries it for whatever device.
  pub token_enrolls_once :
      (db : Tables) (hash : Bytes) (fault fault' : Fault) (now now' : Time) (id id' : Uuid)
      (r r' : EnrollRequest) (os : List Operation)
      → is_enrolled (enroll fault db now id r hash).1 ≡ true
      → is_enrolled
          (enroll fault' (apply_all (enroll fault db now id r hash).0 os) now' id' r' hash).1
        ≡ false
  token_enrolls_once db hash fault fault' now now' id id' r r' os h =
      let later = apply_all (enroll fault db now id r hash).0 os in
      Spent-not_enrolled (enroll fault' later now' id' r' hash)
        (enroll-Outcome later now' id' r' hash fault')
        (apply_all-Spent hash (enroll fault db now id r hash).0 os
          (success-Spent (enroll fault db now id r hash) (enroll-Outcome db now id r hash fault) h))
