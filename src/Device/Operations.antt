-- ===== src/Device/Operations.antt =====
-- backend/internal/device/store.go: sequences of operations on the tables, and what none of them undoes.
use netra.Prelude.{
  ◌≡◌, refl, sym, ap, ◌∙◌, String, Bool, true, false, not, ◌&&◌, Option, some, List, [], ◌∷◌, ℤ,
  Unicode, ◌==◌, ◌==ₛ◌, ◌⊎◌, inl, inr, Bool-cases, if_true, if_false, if◌then◌else◌, arith,
}
use netra.Risk.Model.{Time, Uuid}
use netra.Audit.Chain.{Bytes}
use netra.Device.Store.{
  State, active, pending, revoked, is_active, is_revoked, Device, EnrollRequest, Tables, Failure,
  Fault, by_uid, update, device_for, issue_token, enroll, heartbeat, revoke, is_alive, beat,
  is_revocable, mark_revoked,
}
use netra.Device.Enrollment.{Outcome, refused, accepted, unanswered, enroll-Outcome, by_uid-found}

-- The calls of the store that write.
pub data Operation : Type 0 where
  issuing : Time → Uuid → Bytes → Option Uuid → String → ℤ → Operation
  enrolling : Fault → Time → Uuid → EnrollRequest → Bytes → Operation
  beating : Time → Uuid → String → Operation
  revoking : Time → Uuid → String → Operation

module _ ⦃u : Unicode⦄ where
  unfoldable pub apply : Tables → Operation → Tables
  apply db (issuing now id hash by label ttl) = (issue_token db now id hash by label ttl).0
  apply db (enrolling fault now id r hash) = (enroll fault db now id r hash).0
  apply db (beating now id version) = (heartbeat db now id version).0
  apply db (revoking now id reason) = (revoke db now id reason).0

  unfoldable pub apply_all : Tables → List Operation → Tables
  unfolding apply
  apply_all db [] = db
  apply_all db (o ∷ os) = apply_all (apply db o) os

-- A row that an UPDATE leaves alone, and whose column no UPDATE changes, is found as before.
pub by_uid-update :
    (p : Device → Bool) (f : Device → Device) (uid : String) (ds : List Device) (d : Device)
    → ((e : Device) → (f e).device_uid ≡ e.device_uid)
    → by_uid uid ds ≡ some d
    → by_uid uid (update p f ds) ≡ some (if p d then f d else d)
unfolding by_uid
by_uid-update p f uid [] d k h = cc
by_uid-update p f uid (x ∷ xs) d k h =
    let kept : (if p x then f x else x).device_uid ≡ x.device_uid = elim (Bool-cases (p x)) [
      | inl e ↦ ap (λ (z : Device). z.device_uid) (if_true (p x) (f x) x e) ∙ k x
      | inr e ↦ ap (λ (z : Device). z.device_uid) (if_false (p x) (f x) x e)
    ] in
    elim (Bool-cases (x.device_uid ==ₛ uid)) [
      | inl c ↦
          let same : x ≡ d = some_inj (sym (if_true _ _ _ c) ∙ h) in
          if_true _ _ _ (ap (λ z. z ==ₛ uid) kept ∙ c)
          ∙ ap (λ z. some (if p z then f z else z)) same
      | inr c ↦
          if_false _ _ _ (ap (λ z. z ==ₛ uid) kept ∙ c)
          ∙ by_uid-update p f uid xs d k (sym (if_false _ _ _ c) ∙ h)
    ]
  where
    some_inj : {A : Type 0} {a b : A} → some a ≡ some b → a ≡ b
    some_inj h = cc

pub revoked_not_active : (s : State) → is_revoked s ≡ true → is_active s ≡ false
revoked_not_active pending h = refl
revoked_not_active active h = cc
revoked_not_active revoked h = refl

pub id_refl : (id : Uuid) → (id == id) ≡ true
id_refl id = ground arith

and_false : (a b : Bool) → b ≡ false → (a && b) ≡ false
and_false a b h = ground arith

module _ ⦃u : Unicode⦄ where
  enrolled-revoked :
      {db : Tables} {now : Time} {id : Uuid} {r : EnrollRequest} {hash : Bytes} (uid : String)
      (d : Device) (x : Tables × (Failure ⊎ Device))
      → Outcome db now id r hash x
      → by_uid uid db.devices ≡ some d
      → by_uid uid x.0.devices ≡ some d
  enrolled-revoked uid d x (refused f) h = h
  enrolled-revoked {db} {now} {id} {r} uid d x (accepted t k s n) h =
      by_uid-found uid db.devices (device_for id now r) d h
  enrolled-revoked {db} {now} {id} {r} uid d x (unanswered t k s n) h =
      by_uid-found uid db.devices (device_for id now r) d h

  issue_token_devices :
      (db : Tables) (now : Time) (id : Uuid) (hash : Bytes) (by : Option Uuid) (label : String)
      (ttl : ℤ)
      → (issue_token db now id hash by label ttl).0.devices ≡ db.devices
  unfolding issue_token
  issue_token_devices db now id hash by label ttl = ground arith

  -- A revoked row stays as it is under every operation of the store, revocation included.
  apply-revoked :
      (uid : String) (d : Device) (db : Tables) (o : Operation)
      → by_uid uid db.devices ≡ some d
      → is_revoked d.state ≡ true
      → by_uid uid (apply db o).devices ≡ some d
  unfolding apply heartbeat revoke
  apply-revoked uid d db (issuing now id hash by label ttl) h k =
      ap (by_uid uid) (issue_token_devices db now id hash by label ttl) ∙ h
  apply-revoked uid d db (enrolling fault now id r hash) h k =
      enrolled-revoked uid d (enroll fault db now id r hash) (enroll-Outcome db now id r hash fault)
        h
  apply-revoked uid d db (beating now id version) h k =
      by_uid-update (is_alive id) (beat now version) uid db.devices d (λ e. refl) h
      ∙ ap some (
          if_false _ (beat now version d) d
            (and_false (d.id == id) (is_active d.state) (revoked_not_active d.state k)))
  apply-revoked uid d db (revoking now id reason) h k =
      by_uid-update (is_revocable id) (mark_revoked now reason) uid db.devices d (λ e. refl) h
      ∙ ap some (
          if_false _ (mark_revoked now reason d) d
            (and_false (d.id == id) (not (is_revoked d.state)) (ap not k)))

  pub apply_all-revoked :
      (uid : String) (d : Device) (db : Tables) (os : List Operation)
      → by_uid uid db.devices ≡ some d
      → is_revoked d.state ≡ true
      → by_uid uid (apply_all db os).devices ≡ some d
  unfolding apply_all
  apply_all-revoked uid d db [] h k = h
  apply_all-revoked uid d db (o ∷ os) h k =
      apply_all-revoked uid d (apply db o) os (apply-revoked uid d db o h k) k
