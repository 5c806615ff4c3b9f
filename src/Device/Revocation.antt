-- ===== src/Device/Revocation.antt =====
-- Revocation reaches the gate: backend/internal/device/store.go and middleware.go together.
use mathlib.Core.Bool.{true≢false}
use netra.Prelude.{
  ◌≡◌, refl, sym, ap, ◌∙◌, String, Bool, true, false, not, ◌&&◌, some, List, Unicode, Bool-cases,
  inl, inr, if_true, if_false, if◌then◌else◌,
}
use netra.Risk.Model.{Time}
use netra.Device.Store.{
  is_active, is_revoked, Device, Tables, by_uid, revoke, is_revocable, mark_revoked, Seen,
}
use netra.Device.Signing.{Crypto}
use netra.Device.Gate.{Request, Verdict, gate}
use netra.Device.Admission.{is_served, Outcome, turned_away, decided, gate-Outcome}
use netra.Device.Operations.{
  Operation, apply_all, apply_all-revoked, by_uid-update, revoked_not_active, id_refl,
}

-- The row that `Revoke` leaves.
after_revoke : Time → String → Device → Device
after_revoke now reason d = if not (is_revoked d.state) then mark_revoked now reason d else d

after_revoke-is_revoked :
    (now : Time) (reason : String) (d : Device)
    → is_revoked (if not (is_revoked d.state) then mark_revoked now reason d else d).state ≡ true
after_revoke-is_revoked now reason d = elim (Bool-cases (is_revoked d.state)) [
  | inl e ↦
      ap (λ (z : Device). is_revoked z.state) (if_false _ (mark_revoked now reason d) d (ap not e))
      ∙ e
  | inr e ↦
      ap (λ (z : Device). is_revoked z.state) (if_true _ (mark_revoked now reason d) d (ap not e))
]

by_uid-revoke :
    (db : Tables) (now : Time) (reason : String) (uid : String) (d : Device)
    → by_uid uid db.devices ≡ some d
    → by_uid uid (revoke db now d.id reason).0.devices
      ≡ some (if not (is_revoked d.state) then mark_revoked now reason d else d)
unfolding revoke
by_uid-revoke db now reason uid d h =
    by_uid-update (is_revocable d.id) (mark_revoked now reason) uid db.devices d (λ e. refl) h
    ∙ ap (λ b. some (if b && not (is_revoked d.state) then mark_revoked now reason d else d))
        (id_refl d.id)

module _ ⦃u : Unicode⦄ ⦃c : Crypto⦄ where
  inactive_not_served :
      {works : Bool} {devices : List Device} {seen : List Seen} {now : Time} {r : Request}
      (d : Device) (x : List Seen × Verdict)
      → Outcome works devices seen now r x
      → by_uid r.device_uid devices ≡ some d
      → is_active d.state ≡ false
      → is_served x.1 ≡ false
  inactive_not_served d x (turned_away v h) k i = h
  inactive_not_served d x (decided seconds body e p) k i = absurd (
      true≢false
        (sym p.active ∙ ap (λ (z : Device). is_active z.state) (some_inj (sym p.known ∙ k)) ∙ i))
    where
      some_inj : {a b : Device} → some a ≡ some b → a ≡ b
      some_inj h = cc

  -- Once a device has been revoked, no request that names it is served: whatever operations the
  -- store performs afterwards, enrollments under the same name among them, and whatever the request.
  pub revoked_never_served :
      (works : Bool) (db : Tables) (seen : List Seen) (at now : Time) (reason : String) (d : Device)
      (r : Request) (os : List Operation)
      → by_uid r.device_uid db.devices ≡ some d
      → is_served (gate works (apply_all (revoke db at d.id reason).0 os).devices seen now r).1
        ≡ false
  revoked_never_served works db seen at now reason d r os k =
      let after = if not (is_revoked d.state) then mark_revoked at reason d else d in
      let devices = (apply_all (revoke db at d.id reason).0 os).devices in
      let is = after_revoke-is_revoked at reason d in
      inactive_not_served after (gate works devices seen now r)
        (gate-Outcome works devices seen now r)
        (apply_all-revoked r.device_uid after (revoke db at d.id reason).0 os
          (by_uid-revoke db at reason r.device_uid d k) is)
        (revoked_not_active after.state is)
