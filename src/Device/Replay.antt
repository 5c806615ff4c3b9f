-- ===== src/Device/Replay.antt =====
-- A signed request is served at most once.
use mathlib.Core.Path.{subst}
use mathlib.Core.Bool.{true≢false}
use netra.Prelude.{
  eq_refl, ℕ, ◌*◌, ◌≤◌, ◌≡◌, refl, sym, ap, ◌∙◌, String, Bool, true, false, not, ◌&&◌, ◌||◌, some,
  List, [], ◌∷◌, any, ℤ, pos, ◌-ℤ◌, ltb_ℤ, eqb_ℤ, eqb_ℤ→eq, int_laws, arith, ltb→lt, lt→ltb,
  Unicode, ◌==◌, ◌==ₛ◌, ◌⊎◌, inl, inr, Bool-cases, if_true, if_false,
}
use netra.Risk.Model.{Time, Uuid}
use netra.Audit.Chain.{Bytes}
use netra.Device.Store.{
  Device, by_uid, Seen, is_seen, Consumed, fresh, replayed, failed, consume_nonce, prune_nonces,
}
use netra.Device.Signing.{Crypto, check_clock_skew, max_clock_skew, parse_int, from_unix}
use netra.Device.Gate.{Request, Verdict, served, answer, gate}
use netra.Device.Admission.{is_served, Outcome, turned_away, decided, gate-Outcome}
use netra.Device.Clock.{check_clock_skew_late}

-- What happens at the gate: a request meets the devices of its moment, or the ticker of
-- cmd/netrad/main.go deletes the nonces older than twice the skew.
pub data Event : Type 0 where
  arrival : Bool → List Device → Time → Request → Event
  pruning : Time → Event

abbrev pub event_time : Event → Time
event_time (arrival works devices now r) = now
event_time (pruning now) = now

unfoldable pub prune_at : List Seen → Time → List Seen
prune_at seen now = prune_nonces seen (pos now -ℤ pos (2 * max_clock_skew))

-- The clock does not go back, and ends at the last time.
abbrev pub InOrder : Time → List Event → Time → Type 0
InOrder now [] last = now ≤ last
InOrder now (e ∷ es) last = (now ≤ event_time e) × InOrder (event_time e) es last

-- The row of a nonce with its time.
abbrev holds : Uuid → String → ℤ → List Seen → Bool
holds id nonce at = any (λ r. (r.device_id == id) && (r.nonce ==ₛ nonce) && eqb_ℤ r.seen_at at)

is_seen-holds :
    (id : Uuid) (nonce : String) (at : ℤ) (seen : List Seen)
    → holds id nonce at seen ≡ true
    → is_seen id nonce seen ≡ true
is_seen-holds id nonce at [] h = h
is_seen-holds id nonce at (r ∷ rs) h = ground (arith, is_seen-holds id nonce at rs)

eqb_ℤ_refl : (n : ℤ) → eqb_ℤ n n ≡ true
eqb_ℤ_refl n = ground arith

holds-cons :
    (id : Uuid) (nonce : String) (at : ℤ) (r : Seen) (seen : List Seen)
    → holds id nonce at seen ≡ true
    → holds id nonce at (r ∷ seen) ≡ true
holds-cons id nonce at r seen h = ground arith

holds-consume :
    (works : Bool) (id : Uuid) (nonce : String) (at : ℤ) (seen : List Seen) (k : Uuid) (n : String)
    (t : ℤ)
    → holds id nonce at seen ≡ true
    → holds id nonce at (consume_nonce works seen k n t).0 ≡ true
unfolding consume_nonce
holds-consume false id nonce at seen k n t h = h
holds-consume true id nonce at seen k n t h = elim (Bool-cases (is_seen k n seen)) [
  | inl e ↦ rw e h
  | inr e ↦ rw e (holds-cons id nonce at (record { device_id = k; nonce = n; seen_at = t }) seen h)
]

second_true : (a b : Bool) → (a || b) ≡ true → a ≡ false → b ≡ true
second_true a b h e = ground arith

third_true : (a b c : Bool) → (a && b && c) ≡ true → c ≡ true
third_true a b c h = ground arith

holds-prune :
    (id : Uuid) (nonce : String) (at before : ℤ) (seen : List Seen)
    → ltb_ℤ at before ≡ false
    → holds id nonce at seen ≡ true
    → holds id nonce at (prune_nonces seen before) ≡ true
unfolding prune_nonces
holds-prune id nonce at before [] e h = h
holds-prune id nonce at before (r ∷ rs) e h =
    let hit = (r.device_id == id) && (r.nonce ==ₛ nonce) && eqb_ℤ r.seen_at at in
    elim (Bool-cases hit) [
      | inl f ↦
          let same =
            eqb_ℤ→eq r.seen_at at (third_true (r.device_id == id) (r.nonce ==ₛ nonce) _ f) in
          let kept : ltb_ℤ r.seen_at before ≡ false = ap (λ t. ltb_ℤ t before) same ∙ e in
          ap (holds id nonce at) (if_true (not (ltb_ℤ r.seen_at before)) _ _ (ap not kept))
          ∙ ap (λ b. b || holds id nonce at (prune_nonces rs before)) f
      | inr f ↦
          let rest = holds-prune id nonce at before rs e (second_true hit _ h f) in
          elim (Bool-cases (ltb_ℤ r.seen_at before)) [
            | inl g ↦
                ap (holds id nonce at) (if_false (not (ltb_ℤ r.seen_at before)) _ _ (ap not g))
                ∙ rest
            | inr g ↦
                ap (holds id nonce at) (if_true (not (ltb_ℤ r.seen_at before)) _ _ (ap not g))
                ∙ holds-cons id nonce at r (prune_nonces rs before) rest
          ]
    ]

-- The time is too old for every clock from now on.
abbrev Expired : ℤ → Time → Type 0
Expired at now = ltb_ℤ (pos max_clock_skew) (pos now -ℤ at) ≡ true

-- The nonce of a served request is on record, or its time is too old.
abbrev Blocked : Uuid → String → ℤ → List Seen → Time → Type 0
Blocked id nonce at seen now = (holds id nonce at seen ≡ true) ⊎ Expired at now

Expired-later : (at : ℤ) (t now : ℕ) → t ≤ now → Expired at t → Expired at now
Expired-later at t now h e = lt→ltb _ _ (omega (int_laws, ltb→lt _ _ e))

pruned-Expired :
    (at : ℤ) (now : ℕ) → ltb_ℤ at (pos now -ℤ pos (2 * max_clock_skew)) ≡ true → Expired at now
pruned-Expired at now h = lt→ltb _ _ (omega (int_laws, ltb→lt _ _ h))

module _ ⦃u : Unicode⦄ ⦃c : Crypto⦄ where
  unfoldable pub run : List Seen → List Event → List Seen
  unfolding prune_at
  run seen [] = seen
  run seen (arrival works devices now r ∷ es) = run (gate works devices seen now r).0 es
  run seen (pruning now ∷ es) = run (prune_at seen now) es

prune-Blocked :
    (id : Uuid) (nonce : String) (at : ℤ) (seen : List Seen) (now : Time)
    → holds id nonce at seen ≡ true
    → Blocked id nonce at (prune_at seen now) now
unfolding prune_at
prune-Blocked id nonce at seen now h =
    elim (Bool-cases (ltb_ℤ at (pos now -ℤ pos (2 * max_clock_skew)))) [
      | inl e ↦ inr (pruned-Expired at now e)
      | inr e ↦ inl (holds-prune id nonce at _ seen e h)
    ]

consume_fresh :
    (works : Bool) (id : Uuid) (nonce : String) (at : ℤ) (seen : List Seen)
    → (consume_nonce works seen id nonce at).1 ≡ fresh
    → holds id nonce at (consume_nonce works seen id nonce at).0 ≡ true
unfolding consume_nonce
consume_fresh false id nonce at seen h = cc
consume_fresh true id nonce at seen h =
    let row : Seen = record { device_id = id; nonce = nonce; seen_at = at } in
    elim (Bool-cases (is_seen id nonce seen)) [
      | inl e ↦ replayed_not_fresh (
          sym (
            ap (λ (p : List Seen × Consumed). p.1)
              (if_true (is_seen id nonce seen) _ (row ∷ seen, fresh) e))
          ∙ h)
      | inr e ↦
          ap (λ (p : List Seen × Consumed). holds id nonce at p.0)
            (if_false (is_seen id nonce seen) (seen, replayed) (row ∷ seen, fresh) e)
          ∙ ground (arith, eq_refl nonce, eqb_ℤ_refl at)
    ]
  where
    replayed_not_fresh : {P : Type 0} → replayed ≡ fresh → P
    replayed_not_fresh h = cc

consume_held :
    (works : Bool) (id : Uuid) (nonce : String) (at : ℤ) (seen : List Seen) (d : Device)
    (body : Bytes)
    → is_seen id nonce seen ≡ true
    → is_served (answer d body (consume_nonce works seen id nonce at)).1 ≡ false
unfolding consume_nonce
consume_held false id nonce at seen d body h = refl
consume_held true id nonce at seen d body h = rw h refl

answer_nonces : (d : Device) (body : Bytes) (p : List Seen × Consumed) → (answer d body p).0 ≡ p.0
answer_nonces d body (seen, fresh) = refl
answer_nonces d body (seen, replayed) = refl
answer_nonces d body (seen, failed) = refl

answer_served :
    (d e : Device) (body b : Bytes) (p : List Seen × Consumed)
    → (answer d body p).1 ≡ served e b
    → (p.1 ≡ fresh) × (d ≡ e)
answer_served d e body b (seen, fresh) h = (refl, cc)
answer_served d e body b (seen, replayed) h = cc
answer_served d e body b (seen, failed) h = cc

module _ ⦃u : Unicode⦄ ⦃c : Crypto⦄ where
  -- A served request leaves its nonce on record, with its time.
  served-holds :
      {works : Bool} {devices : List Device} {seen : List Seen} {now : Time} {r : Request}
      (x : List Seen × Verdict) (d : Device) (body : Bytes)
      → Outcome works devices seen now r x
      → x.1 ≡ served d body
      → (seconds : ℤ) × (parse_int r.timestamp ≡ some seconds)
        × (holds d.id r.nonce (from_unix seconds) x.0 ≡ true)
  served-holds x d body (turned_away v h) e = absurd (true≢false (sym (ap is_served e) ∙ h))
  served-holds {works} {devices} {seen} {now} {r} x d body (decided seconds b d0 p) e =
      let at = from_unix seconds in
      let result = consume_nonce works seen d0.id r.nonce at in
      let (taken, same) = answer_served d0 d b body result e in
      (
        seconds,
        p.timestamp,
        ap (holds d.id r.nonce at) (answer_nonces d0 b result)
            ∙ subst (λ (z : Device). holds z.id r.nonce at result.0 ≡ true) same
                (consume_fresh works d0.id r.nonce at seen taken),
      )

  gate-holds :
      {works : Bool} {devices : List Device} {seen : List Seen} {now : Time} {r : Request}
      (id : Uuid) (nonce : String) (at : ℤ) (x : List Seen × Verdict)
      → Outcome works devices seen now r x
      → holds id nonce at seen ≡ true
      → holds id nonce at x.0 ≡ true
  gate-holds id nonce at x (turned_away v h) e = e
  gate-holds {works} {devices} {seen} {now} {r} id nonce at x (decided seconds b d p) e =
      ap (holds id nonce at)
        (answer_nonces d b (consume_nonce works seen d.id r.nonce (from_unix seconds)))
      ∙ holds-consume works id nonce at seen d.id r.nonce (from_unix seconds) e

  run-Blocked :
      (id : Uuid) (nonce : String) (at : ℤ) (now last : Time) (seen : List Seen) (es : List Event)
      → InOrder now es last
      → Blocked id nonce at seen now
      → Blocked id nonce at (run seen es) last
  unfolding run
  run-Blocked id nonce at now last seen [] o (inl h) = inl h
  run-Blocked id nonce at now last seen [] o (inr h) = inr (Expired-later at now last o h)
  run-Blocked id nonce at now last seen (arrival works devices t r ∷ es) (l, o) (inl h) =
      run-Blocked id nonce at t last (gate works devices seen t r).0 es o (
        inl (
          gate-holds id nonce at (gate works devices seen t r) (gate-Outcome works devices seen t r)
            h))
  run-Blocked id nonce at now last seen (arrival works devices t r ∷ es) (l, o) (inr h) =
      run-Blocked id nonce at t last (gate works devices seen t r).0 es o
        (inr (Expired-later at now t l h))
  run-Blocked id nonce at now last seen (pruning t ∷ es) (l, o) (inr h) =
      run-Blocked id nonce at t last (prune_at seen t) es o (inr (Expired-later at now t l h))
  run-Blocked id nonce at now last seen (pruning t ∷ es) (l, o) (inl h) =
      run-Blocked id nonce at t last (prune_at seen t) es o (prune-Blocked id nonce at seen t h)

  Blocked-not_served :
      {works : Bool} {devices : List Device} {seen : List Seen} {now : Time} {r : Request}
      (id : Uuid) (at : ℤ) (x : List Seen × Verdict)
      → Outcome works devices seen now r x
      → ((seconds : ℤ) → parse_int r.timestamp ≡ some seconds → from_unix seconds ≡ at)
      → ((d : Device) → by_uid r.device_uid devices ≡ some d → d.id ≡ id)
      → Blocked id r.nonce at seen now
      → is_served x.1 ≡ false
  Blocked-not_served id at x (turned_away v h) t k b = h
  Blocked-not_served {works} {devices} {seen} {now} {r} id at x (decided seconds body d p) t k
        (inl h) =
      consume_held works d.id r.nonce (from_unix seconds) seen d body (
        subst (λ z. is_seen z r.nonce seen ≡ true) (sym (k d p.known))
          (is_seen-holds id r.nonce at seen h))
  Blocked-not_served {works} {devices} {seen} {now} {r} id at x (decided seconds body d p) t k
        (inr h) =
      absurd (
        true≢false (
          sym p.in_window
          ∙ ap (λ z. check_clock_skew z (pos now)) (t seconds p.timestamp)
          ∙ check_clock_skew_late at (pos now) h))

  some_inj : {A : Type 0} {a b : A} → some a ≡ some b → a ≡ b
  some_inj h = cc

  -- A request that was served, as it was sent, is not served again at any later time, whatever
  -- other requests arrive and nonces are deleted in between: if the clock does not go back, and the
  -- device's identifier still belongs to the same device.
  pub served_once :
      (works works' : Bool) (devices devices' : List Device) (seen : List Seen) (now last : Time)
      (r : Request) (d : Device) (body : Bytes) (es : List Event)
      → (gate works devices seen now r).1 ≡ served d body
      → InOrder now es last
      → ((d' : Device) → by_uid r.device_uid devices' ≡ some d' → d'.id ≡ d.id)
      → is_served (gate works' devices' (run (gate works devices seen now r).0 es) last r).1 ≡ false
  served_once works works' devices devices' seen now last r d body es e o k =
      let after = (gate works devices seen now r).0 in
      let (seconds, t, h) =
        served-holds (gate works devices seen now r) d body (gate-Outcome works devices seen now r)
          e in
      Blocked-not_served d.id (from_unix seconds) (gate works' devices' (run after es) last r)
        (gate-Outcome works' devices' (run after es) last r)
        (λ s t'. ap from_unix (some_inj (sym t' ∙ t))) k
        (run-Blocked d.id r.nonce (from_unix seconds) now last after es o (inl h))
