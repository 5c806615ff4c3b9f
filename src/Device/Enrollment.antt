-- ===== src/Device/Enrollment.antt =====
-- Enrollment: what a success and a failure leave, and that a token enrolls one device.
use mathlib.Core.Sum.{inl-injective, inr-injective}
use mathlib.Core.Bool.{true≢false}
use netra.Prelude.{
  ◌≡◌, refl, sym, ap, ◌∙◌, String, Bool, true, false, Option, none, some, List, [], ◌∷◌, ◌++◌,
  Unicode, ◌==ₛ◌, eq_iff, eq_refl, ◌⊎◌, inl, inr, Bool-cases, if_true, if_false, if◌then◌else◌,
}
use netra.Risk.Model.{Time, Uuid}
use netra.Audit.Chain.{Bytes}
use netra.Device.Store.{
  Device, EnrollRequest, Invalid, Token, Tables, Failure, invalid, enrollment_token, device_exists,
  database, Fault, find_token, by_uid, is_none, is_spendable, device_for, enrolled_tables,
  create_device, use_token, spend, transact, validate, enroll,
}

abbrev pub is_enrolled : Failure ⊎ Device → Bool
is_enrolled (inl f) = false
is_enrolled (inr d) = true

pub by_uid-found :
    (uid : String) (ds : List Device) (d e : Device)
    → by_uid uid ds ≡ some e
    → by_uid uid (ds ++ d ∷ []) ≡ some e
unfolding by_uid
by_uid-found uid [] d e h = cc
by_uid-found uid (x ∷ xs) d e h = elim (Bool-cases (x.device_uid ==ₛ uid)) [
  | inl c ↦ if_true _ _ _ c ∙ sym (if_true _ _ _ c) ∙ h
  | inr c ↦ if_false _ _ _ c ∙ by_uid-found uid xs d e (sym (if_false _ _ _ c) ∙ h)
]

-- A row whose identifier is new is found, and hides no other row.
by_uid-append :
    (uid : String) (ds : List Device) (d : Device)
    → is_none (by_uid d.device_uid ds) ≡ true
    → by_uid uid (ds ++ d ∷ []) ≡ (if d.device_uid ==ₛ uid then some d else by_uid uid ds)
unfolding by_uid
by_uid-append uid [] d n = refl
by_uid-append uid (x ∷ xs) d n = elim (Bool-cases (x.device_uid ==ₛ d.device_uid)) [
  | inl c ↦ absurd (true≢false (sym n ∙ ap is_none (if_true _ _ _ c)))
  | inr c ↦
      let rest = by_uid-append uid xs d (ap is_none (sym (if_false _ _ _ c)) ∙ n) in
      elim (Bool-cases (x.device_uid ==ₛ uid)) [
        | inl e ↦
            if_true _ _ _ e
            ∙ sym (if_true _ _ _ e)
            ∙ sym (
                if_false (d.device_uid ==ₛ uid) (some d) _
                  (other x.device_uid uid d.device_uid e c))
        | inr e ↦
            if_false _ _ _ e
            ∙ rest
            ∙ ap (λ z. if d.device_uid ==ₛ uid then some d else z) (sym (if_false _ _ _ e))
      ]
]
  where
    other : (x y z : String) → (x ==ₛ y) ≡ true → (x ==ₛ z) ≡ false → (z ==ₛ y) ≡ false
    other x y z h k = elim (Bool-cases (z ==ₛ y)) [
      | inl e ↦ absurd (
          true≢false
            (sym (eq_refl x) ∙ ap (λ w. x ==ₛ w) ((eq_iff x y).0 h ∙ sym ((eq_iff z y).0 e)) ∙ k))
      | inr e ↦ e
    ]

module _ (db : Tables) (now : Time) (id : Uuid) (r : EnrollRequest) (hash : Bytes) where
  -- An enrollment changes nothing and fails, or spends a token for a device of a new identifier, and
  -- then its answer may be lost.
  pub data Outcome : Tables × (Failure ⊎ Device) → Type 0 where
    refused : (f : Failure) → Outcome (db, inl f)
    accepted :
        (t : Token)
        → find_token hash db.tokens ≡ some t
        → is_spendable now t ≡ true
        → is_none (by_uid r.device_uid db.devices) ≡ true
        → Outcome (enrolled_tables db now id r t, inr (device_for id now r))
    -- The answer of Commit is lost.
    unanswered :
        (t : Token)
        → find_token hash db.tokens ≡ some t
        → is_spendable now t ≡ true
        → is_none (by_uid r.device_uid db.devices) ≡ true
        → Outcome (enrolled_tables db now id r t, inl database)

  either :
      (b : Bool) (x y : Tables × (Failure ⊎ Device))
      → (b ≡ true → Outcome x)
      → (b ≡ false → Outcome y)
      → Outcome (if b then x else y)
  either true x y f g = f refl
  either false x y f g = g refl

  use_token-Outcome :
      (fault : Fault) (t : Token)
      → find_token hash db.tokens ≡ some t
      → is_spendable now t ≡ true
      → is_none (by_uid r.device_uid db.devices) ≡ true
      → Outcome (use_token fault db now id r t)
  unfolding use_token
  use_token-Outcome Fault.consume t k s n = refused database
  use_token-Outcome Fault.commit t k s n = refused database
  use_token-Outcome Fault.answer t k s n = unanswered t k s n
  use_token-Outcome Fault.no_fault t k s n = accepted t k s n
  use_token-Outcome Fault.begin t k s n = accepted t k s n
  use_token-Outcome Fault.lookup t k s n = accepted t k s n
  use_token-Outcome Fault.create t k s n = accepted t k s n

  insert-Outcome :
      (fault : Fault) (t : Token)
      → find_token hash db.tokens ≡ some t
      → is_spendable now t ≡ true
      → Outcome (
          if is_none (by_uid r.device_uid db.devices)
          then use_token fault db now id r t
          else (db, inl device_exists))
  insert-Outcome fault t k s =
      either (is_none (by_uid r.device_uid db.devices)) _ _ (use_token-Outcome fault t k s)
        (λ e. refused device_exists)

  create_device-Outcome :
      (fault : Fault) (t : Token)
      → find_token hash db.tokens ≡ some t
      → is_spendable now t ≡ true
      → Outcome (create_device fault db now id r t)
  unfolding create_device
  create_device-Outcome Fault.create t k s = refused database
  create_device-Outcome Fault.consume t k s = insert-Outcome Fault.consume t k s
  create_device-Outcome Fault.commit t k s = insert-Outcome Fault.commit t k s
  create_device-Outcome Fault.answer t k s = insert-Outcome Fault.answer t k s
  create_device-Outcome Fault.no_fault t k s = insert-Outcome Fault.no_fault t k s
  create_device-Outcome Fault.begin t k s = insert-Outcome Fault.begin t k s
  create_device-Outcome Fault.lookup t k s = insert-Outcome Fault.lookup t k s

  spend-Outcome :
      (fault : Fault) (o : Option Token)
      → find_token hash db.tokens ≡ o
      → Outcome (spend fault db now id r o)
  unfolding spend
  spend-Outcome fault none k = refused enrollment_token
  spend-Outcome fault (some t) k =
      either (is_spendable now t) _ _ (λ s. create_device-Outcome fault t k s)
        (λ e. refused enrollment_token)

  transact-Outcome : (fault : Fault) → Outcome (transact fault db now id r hash)
  unfolding transact
  transact-Outcome Fault.begin = refused database
  transact-Outcome Fault.lookup = refused database
  transact-Outcome Fault.answer = spend-Outcome Fault.answer (find_token hash db.tokens) refl
  transact-Outcome Fault.no_fault = spend-Outcome Fault.no_fault (find_token hash db.tokens) refl
  transact-Outcome Fault.create = spend-Outcome Fault.create (find_token hash db.tokens) refl
  transact-Outcome Fault.consume = spend-Outcome Fault.consume (find_token hash db.tokens) refl
  transact-Outcome Fault.commit = spend-Outcome Fault.commit (find_token hash db.tokens) refl

  validated-Outcome :
      (fault : Fault) (o : Option Invalid)
      → Outcome (elim o [
        | some error ↦ (db, inl (invalid error))
        | none ↦ transact fault db now id r hash
      ])
  validated-Outcome fault (some error) = refused (invalid error)
  validated-Outcome fault none = transact-Outcome fault

  pub enroll-Outcome : ⦃u : Unicode⦄ → (fault : Fault) → Outcome (enroll fault db now id r hash)
  unfolding enroll
  enroll-Outcome ⦃u⦄ fault = validated-Outcome fault (validate r)

  refused_keeps :
      (x : Tables × (Failure ⊎ Device)) (f : Failure)
      → Outcome x
      → x.1 ≡ inl f
      → (f ≡ database → ⊥)
      → x.0 ≡ db
  refused_keeps x f (refused g) h other = refl
  refused_keeps x f (accepted t k s n) h other = cc
  refused_keeps x f (unanswered t k s n) h other = absurd (other (sym (inl-injective database f h)))

  accepted_id :
      (x : Tables × (Failure ⊎ Device)) (d : Device)
      → Outcome x
      → x.1 ≡ inr d
      → (uid : String)
      → by_uid uid x.0.devices ≡ (if r.device_uid ==ₛ uid then some d else by_uid uid db.devices)
  accepted_id x d (refused g) h uid = cc
  accepted_id x d (unanswered t k s n) h uid = cc
  accepted_id x d (accepted t k s n) h uid =
      by_uid-append uid db.devices (device_for id now r) n
      ∙ ap (λ z. if r.device_uid ==ₛ uid then some z else by_uid uid db.devices)
          (inr-injective (device_for id now r) d h)

-- An enrollment that is refused, for whatever reason but an error of the database, leaves the tokens
-- and the devices as they were.
pub enroll_failed :
    ⦃u : Unicode⦄
    → (fault : Fault) (db : Tables) (now : Time) (id : Uuid) (r : EnrollRequest) (hash : Bytes)
      (f : Failure)
    → (enroll fault db now id r hash).1 ≡ inl f
    → (f ≡ database → ⊥)
    → (enroll fault db now id r hash).0 ≡ db
enroll_failed ⦃u⦄ fault db now id r hash f h other =
    refused_keeps db now id r hash (enroll fault db now id r hash) f
      (enroll-Outcome db now id r hash fault) h other

-- After an enrollment that succeeds, looking up the identifier it was for finds the device it
-- returned, and looking up any other identifier finds what it found before.
pub by_uid-enroll :
    ⦃u : Unicode⦄
    → (fault : Fault) (db : Tables) (now : Time) (id : Uuid) (r : EnrollRequest) (hash : Bytes)
      (d : Device) (uid : String)
    → (enroll fault db now id r hash).1 ≡ inr d
    → by_uid uid (enroll fault db now id r hash).0.devices
      ≡ (if r.device_uid ==ₛ uid then some d else by_uid uid db.devices)
by_uid-enroll ⦃u⦄ fault db now id r hash d uid h =
    accepted_id db now id r hash (enroll fault db now id r hash) d
      (enroll-Outcome db now id r hash fault) h uid
