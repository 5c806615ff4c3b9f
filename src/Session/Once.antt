-- ===== src/Session/Once.antt =====
-- An attestation challenge begins one session: backend/internal/session/store.go, the operations on session_nonces.
use mathlib.Core.Bool.{true≢false}
use netra.Prelude.{
  ◌≡◌, ◌+◌, refl, sym, ap, ◌∙◌, String, Bool, true, false, ◌&&◌, not, Option, none, some, List, [],
  ◌∷◌, ◌++◌, ◌⊎◌, inl, inr, ltb, ◌==ₛ◌, Unicode, Bool-cases, if_true, if_false, &&-eq-true, arith,
  if◌then◌else◌,
}
use netra.Risk.Model.{Time, Uuid}
use netra.Audit.Chain.{Bytes}
use netra.Device.Store.{Device, Fault, is_none}
use netra.Device.Signing.{Crypto}
use netra.Session.Challenge.{
  Challenge, nonce_ttl, unused, find_challenge, consume_challenge, prune_challenges, issue_nonce,
}
use netra.Session.Begin.{BeginRequest, Failure, Tables, Clock, Begun, begin_session}
use netra.Session.Established.{Outcome, refused, established, unanswered, begin_session-Outcome}

-- The calls that write to session_nonces; those on sessions alone leave it as it is.
pub data Operation : Type 0 where
  issuing : Bool → Uuid → Time → Option Bytes → Operation
  beginning : Fault → Clock → Uuid → BeginRequest → (String → Option Device) → Operation
  pruning : Time → Operation

module _ ⦃k : Crypto⦄ where
  -- The challenge is not drawn again.
  abbrev pub draws : String → Operation → Bool
  draws nonce (issuing works user_id now (some raw)) = k.hex raw ==ₛ nonce
  draws nonce _ = false

  abbrev pub draws_any : String → List Operation → Bool
  draws_any nonce [] = false
  draws_any nonce (o ∷ os) = if draws nonce o then true else draws_any nonce os

module _ ⦃u : Unicode⦄ ⦃k : Crypto⦄ (parse_addr : String → Option String) where
  unfoldable pub apply : Tables → Operation → Tables
  apply db (issuing works user_id now raw) = record db {
    challenges = (issue_nonce works db.challenges user_id now raw).0;
  }
  apply db (beginning fault clock id r lookup) =
      (begin_session parse_addr fault db clock id r lookup).0
  apply db (pruning now) = record db { challenges = prune_challenges db.challenges now }

  unfoldable pub apply_all : Tables → List Operation → Tables
  unfolding apply
  apply_all db [] = db
  apply_all db (o ∷ os) = apply_all (apply db o) os

abbrev pub is_begun : Failure ⊎ Begun → Bool
is_begun (inl f) = false
is_begun (inr b) = true

-- No row that has the nonce is unused.
abbrev is_dead : Option Challenge → Bool
is_dead none = true
is_dead (some c) = not (is_none c.used_at)

abbrev pub every_dead : String → List Challenge → Bool
every_dead nonce [] = true
every_dead nonce (c ∷ cs) =
    (if c.nonce ==ₛ nonce then not (is_none c.used_at) else true) && every_dead nonce cs

find_challenge-every_dead :
    (nonce : String) (cs : List Challenge)
    → every_dead nonce cs ≡ true
    → is_dead (find_challenge nonce cs) ≡ true
unfolding find_challenge
find_challenge-every_dead nonce [] h = refl
find_challenge-every_dead nonce (c ∷ cs) h = elim (Bool-cases (c.nonce ==ₛ nonce)) [
  | inl e ↦ ap is_dead (if_true (c.nonce ==ₛ nonce) (some c) _ e) ∙ ground arith
  | inr e ↦
      ap is_dead (if_false (c.nonce ==ₛ nonce) (some c) _ e)
      ∙ find_challenge-every_dead nonce cs (ground arith)
]

append_dead :
    (nonce : String) (cs : List Challenge) (c : Challenge)
    → (c.nonce ==ₛ nonce) ≡ false
    → every_dead nonce cs ≡ true
    → every_dead nonce (cs ++ c ∷ []) ≡ true
append_dead nonce [] c e h = ground arith
append_dead nonce (x ∷ xs) c e h = ground (arith, append_dead nonce xs c e)

prune_dead :
    (nonce : String) (cs : List Challenge) (before : Time)
    → every_dead nonce cs ≡ true
    → every_dead nonce (prune_challenges cs before) ≡ true
unfolding prune_challenges
prune_dead nonce [] before h = h
prune_dead nonce (x ∷ xs) before h = ground (arith, prune_dead nonce xs before)

consume_dead :
    (nonce used : String) (id : Uuid) (now : Time) (cs : List Challenge)
    → every_dead nonce cs ≡ true
    → every_dead nonce (consume_challenge cs id used now) ≡ true
unfolding consume_challenge
consume_dead nonce used id now [] h = h
consume_dead nonce used id now (x ∷ xs) h = ground (arith, consume_dead nonce used id now xs)

-- Consuming a nonce leaves no row of it unused.
pub consumed_dead :
    (nonce : String) (id : Uuid) (now : Time) (cs : List Challenge)
    → every_dead nonce (consume_challenge cs id nonce now) ≡ true
unfolding consume_challenge
consumed_dead nonce id now [] = refl
consumed_dead nonce id now (x ∷ xs) = ground (arith, consumed_dead nonce id now xs)

module _ ⦃k : Crypto⦄ where
  issue_dead :
      (nonce : String) (works : Bool) (cs : List Challenge) (user_id : Uuid) (now : Time)
      (raw : Option Bytes)
      → draws nonce (issuing works user_id now raw) ≡ false
      → every_dead nonce cs ≡ true
      → every_dead nonce (issue_nonce works cs user_id now raw).0 ≡ true
  unfolding issue_nonce
  issue_dead nonce false cs user_id now raw d h = h
  issue_dead nonce true cs user_id now none d h = h
  issue_dead nonce true cs user_id now (some raw) d h =
      elim (Bool-cases (is_none (find_challenge (k.hex raw) cs))) [
        | inl e ↦
            ap (λ (p : List Challenge × Option (String × Time)). every_dead nonce p.0)
              (if_true _ _ (cs, none) e)
            ∙ append_dead nonce cs (unused (k.hex raw) user_id (now + nonce_ttl)) d h
        | inr e ↦
            ap (λ (p : List Challenge × Option (String × Time)). every_dead nonce p.0)
              (if_false _
                (
                  cs ++ unused (k.hex raw) user_id (now + nonce_ttl) ∷ [],
                  some (k.hex raw, now + nonce_ttl),
                )
                (cs, none) e)
            ∙ h
      ]

module _ ⦃u : Unicode⦄ ⦃k : Crypto⦄ (parse_addr : String → Option String) where
  begin_dead :
      {lookup : String → Option Device} {db : Tables} {clock : Clock} {id : Uuid} {r : BeginRequest}
      (nonce : String) (x : Tables × (Failure ⊎ Begun))
      → Outcome lookup parse_addr db clock id r x
      → every_dead nonce db.challenges ≡ true
      → every_dead nonce x.0.challenges ≡ true
  begin_dead nonce x (refused f) h = h
  begin_dead {db = db} {clock} {id} {r} nonce x (established g) h =
      consume_dead nonce r.nonce id clock.stamped db.challenges h
  begin_dead {db = db} {clock} {id} {r} nonce x (unanswered g) h =
      consume_dead nonce r.nonce id clock.stamped db.challenges h

  begun_dead :
      {lookup : String → Option Device} {db : Tables} {clock : Clock} {id : Uuid} {r : BeginRequest}
      (x : Tables × (Failure ⊎ Begun)) (b : Begun)
      → Outcome lookup parse_addr db clock id r x
      → x.1 ≡ inr b
      → every_dead r.nonce x.0.challenges ≡ true
  begun_dead x b (refused f) h = cc
  begun_dead x b (unanswered g) h = cc
  begun_dead {db = db} {clock} {id} {r} x b (established g) h =
      consumed_dead r.nonce id clock.stamped db.challenges

  dead_not_begun :
      {lookup : String → Option Device} {db : Tables} {clock : Clock} {id : Uuid} {r : BeginRequest}
      (x : Tables × (Failure ⊎ Begun))
      → Outcome lookup parse_addr db clock id r x
      → every_dead r.nonce db.challenges ≡ true
      → is_begun x.1 ≡ false
  dead_not_begun x (refused f) h = refl
  dead_not_begun x (unanswered g) h = refl
  dead_not_begun {db = db} {clock} {r = r} x (established g) h =
      let (rest, own) =
        &&-eq-true (is_none g.challenge.used_at && not (ltb g.challenge.expires_at clock.spent)) _
          g.answerable in
      let (unspent, alive) = &&-eq-true (is_none g.challenge.used_at) _ rest in
      absurd (
        true≢false (
          sym (ap is_dead (sym g.issued) ∙ find_challenge-every_dead r.nonce db.challenges h)
          ∙ ap not unspent))

  apply-dead :
      (nonce : String) (db : Tables) (o : Operation)
      → draws nonce o ≡ false
      → every_dead nonce db.challenges ≡ true
      → every_dead nonce (apply parse_addr db o).challenges ≡ true
  unfolding apply
  apply-dead nonce db (issuing works user_id now raw) d h =
      issue_dead nonce works db.challenges user_id now raw d h
  apply-dead nonce db (beginning fault clock id r lookup) d h =
      begin_dead nonce (begin_session parse_addr fault db clock id r lookup)
        (begin_session-Outcome lookup parse_addr db clock id r fault) h
  apply-dead nonce db (pruning now) d h = prune_dead nonce db.challenges now h

  apply_all-dead :
      (nonce : String) (db : Tables) (os : List Operation)
      → draws_any nonce os ≡ false
      → every_dead nonce db.challenges ≡ true
      → every_dead nonce (apply_all parse_addr db os).challenges ≡ true
  unfolding apply_all
  apply_all-dead nonce db [] d h = h
  apply_all-dead nonce db (o ∷ os) d h =
      apply_all-dead nonce (apply parse_addr db o) os (last (draws nonce o) (draws_any nonce os) d)
        (apply-dead nonce db o (first (draws nonce o) (draws_any nonce os) d) h)
    where
      first : (a b : Bool) → (if a then true else b) ≡ false → a ≡ false
      first a b h = ground arith

      last : (a b : Bool) → (if a then true else b) ≡ false → b ≡ false
      last a b h = ground arith

  -- A challenge with which a session has been begun begins no other: whatever is issued, begun and
  -- pruned in between and whoever presents it, as long as the same nonce is not drawn a second time.
  pub challenge_begins_once :
      (fault fault' : Fault) (db : Tables) (clock clock' : Clock) (id id' : Uuid)
      (r r' : BeginRequest) (lookup lookup' : String → Option Device) (b : Begun)
      (os : List Operation)
      → (begin_session parse_addr fault db clock id r lookup).1 ≡ inr b
      → draws_any r.nonce os ≡ false
      → r'.nonce ≡ r.nonce
      → is_begun
          (begin_session parse_addr fault'
            (apply_all parse_addr (begin_session parse_addr fault db clock id r lookup).0 os)
            clock'
            id'
            r'
            lookup').1
        ≡ false
  challenge_begins_once fault fault' db clock clock' id id' r r' lookup lookup' b os h d e =
      let after = (begin_session parse_addr fault db clock id r lookup).0 in
      let later = apply_all parse_addr after os in
      dead_not_begun (begin_session parse_addr fault' later clock' id' r' lookup')
        (begin_session-Outcome lookup' parse_addr later clock' id' r' fault')
        (ap (λ n. every_dead n later.challenges) e
          ∙ apply_all-dead r.nonce after os d (
              begun_dead (begin_session parse_addr fault db clock id r lookup) b
                (begin_session-Outcome lookup parse_addr db clock id r fault) h))
