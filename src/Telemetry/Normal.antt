-- ===== src/Telemetry/Normal.antt =====
-- backend/internal/telemetry/event.go: what every accepted event satisfies.
use mathlib.Core.Path.{subst}
use mathlib.Core.Bool.{true≢false}
use mathlib.Core.Sum.{inr-injective}
use netra.Prelude.{
  ℕ, suc, ◌+◌, ◌-◌, ◌≤◌, ◌<◌, ◌≡◌, refl, sym, ◌∙◌, String, len, Bool, true, false, ◌||◌, not, [],
  ◌∷◌, length, ltb, ◌==◌, ◌⊎◌, inl, inr, ℤ, pos, negsuc, ◌-ℤ◌, ltb_ℤ, Unicode, Bool-cases, arith,
  int_laws, lt→ltb, if_true, if_false, if◌then◌else◌,
}
use netra.Risk.Model.{Time, Uuid}
use netra.Device.Signing.{sub_time, max_duration}
use netra.Telemetry.Event.{
  Metadata, Formats, Inbound, Event, Reason, is_known_type, is_known_severity, default_severity,
  put, max_metadata_key_len, max_metadata_value_len, key_length, value_length, unknown_type,
  unknown_severity, event_id_length, metadata_entries, max_event_id_len, copy_metadata,
  claimed_time, is_drifted, max_clock_drift, max_metadata_entries, drift_of, corrected_event,
  claimed_event, with_metadata, settle_time, normalize,
}

-- The device and the times of an event are the server's own, its type and its severity are known,
-- its source is the agent, the time it claims is within 24 hours of the server's, and it has at
-- most two more metadata entries than were accepted.
pub record IsNormal (e : Event) (device_id : Uuid) (now : Time) : Type 0 where
  pub attributed : e.device_id ≡ device_id
  pub received : e.received_at ≡ now
  pub from_agent : e.source ≡ "AGENT"
  pub known_type : is_known_type e.event_type ≡ true
  pub known_severity : is_known_severity e.severity ≡ true
  pub not_late : now ≤ e.occurred_at + max_clock_drift
  pub not_early : e.occurred_at ≤ now + max_clock_drift
  pub few_entries : length e.metadata ≤ max_metadata_entries + 2

length-put : (key value : String) (m : Metadata) → length (put key value m) ≤ suc (length m)
unfolding put
length-put key value [] = ground arith
length-put key value ((k, v) ∷ m) = ground (arith, length-put key value m)

go_on :
    {A B : Type 0} (b : Bool) (x : A) (y : A ⊎ B) (e : B)
    → (if b then inl x else y) ≡ inr e
    → (b ≡ false) × (y ≡ inr e)
go_on true x y e h = cc
go_on false x y e h = (refl, h)

length-copy_metadata :
    (m copied result : Metadata)
    → copy_metadata m copied ≡ inr result
    → length result ≤ length m + length copied
unfolding copy_metadata
length-copy_metadata [] copied result h =
    subst (λ (z : Metadata). length z ≤ 0 + length copied) (inr-injective copied result h)
      (omega arith)
length-copy_metadata ((key, value) ∷ m) copied result h =
    let (short_key, rest) =
      go_on (len key == 0 || ltb max_metadata_key_len (len key)) key_length _ result h in
    let (short_value, copy) =
      go_on (ltb max_metadata_value_len (len value)) value_length
        (copy_metadata m (put key value copied)) result rest in
    omega (
      arith,
      length-copy_metadata m (put key value copied) result copy,
      length-put key value copied,
    )

-- The difference that the code tests, cut as a Duration.
abbrev cut : ℤ → ℤ
cut d =
    if ltb_ℤ (pos max_duration) d
    then pos max_duration
    else if ltb_ℤ d (negsuc max_duration)
    then negsuc max_duration
    else d

cut_drifted : (d : ℤ) → is_drifted d ≡ true → is_drifted (cut d) ≡ true
cut_drifted (pos n) h = ground arith
cut_drifted (negsuc n) h = ground arith

or_left : (a b : Bool) → a ≡ true → (a || b) ≡ true
or_left a b h = ground arith

or_right : (a b : Bool) → b ≡ true → (a || b) ≡ true
or_right a b h = ground arith

drift_late : (now at : Time) → at + max_clock_drift < now → is_drifted (pos now -ℤ pos at) ≡ true
drift_late now at h =
    let over : ltb_ℤ (pos max_clock_drift) (pos now -ℤ pos at) ≡ true =
      lt→ltb _ _ (omega (int_laws, h)) in
    or_left (ltb_ℤ (pos max_clock_drift) (pos now -ℤ pos at)) _ over

drift_early : (now at : Time) → now + max_clock_drift < at → is_drifted (pos now -ℤ pos at) ≡ true
drift_early now at h =
    let under : ltb_ℤ (pos now -ℤ pos at) (negsuc (max_clock_drift - 1)) ≡ true =
      lt→ltb _ _ (omega (int_laws, h)) in
    or_right (ltb_ℤ (pos max_clock_drift) (pos now -ℤ pos at)) _ under

not_over : (a b : ℕ) → ¬ (a < b) → b ≤ a
not_over a b h = ground arith

-- A time that the code does not find drifted is within 24 hours.
undrifted :
    (now at : Time)
    → is_drifted (sub_time (pos now) (pos at)) ≡ false
    → (now ≤ at + max_clock_drift) × (at ≤ now + max_clock_drift)
unfolding sub_time
undrifted now at h = (
  not_over (at + max_clock_drift) now
      (λ l. true≢false (sym (cut_drifted (pos now -ℤ pos at) (drift_late now at l)) ∙ h)),
  not_over (now + max_clock_drift) at
      (λ l. true≢false (sym (cut_drifted (pos now -ℤ pos at) (drift_early now at l)) ∙ h)),
)

keeps_near : (now : Time) → now ≤ now + max_clock_drift
keeps_near now = omega arith

module _ ⦃u : Unicode⦄ ⦃f : Formats⦄ (r : Inbound) (device_id : Uuid) (now : Time) where
  settle_time-IsNormal :
      (m : Metadata)
      → is_known_type r.event_type ≡ true
      → is_known_severity (default_severity r.severity) ≡ true
      → length m ≤ max_metadata_entries
      → IsNormal (settle_time r device_id now m) device_id now
  unfolding settle_time
  settle_time-IsNormal m t s l =
      let inner =
        put "netra.reported_occurred_at" (f.rfc_3339 (claimed_time now r.occurred_at_ms)) m in
      elim (Bool-cases (is_drifted (drift_of r now))) [
        | inl b ↦
            subst (λ z. IsNormal z device_id now)
              (sym
                (if_true _ (corrected_event r device_id now m) (claimed_event r device_id now m) b))
              (record {
                attributed = refl;
                received = refl;
                from_agent = refl;
                known_type = t;
                known_severity = s;
                not_late = keeps_near now;
                not_early = keeps_near now;
                few_entries = omega (
                  arith,
                  l,
                  length-put "netra.clock_drift_seconds" (f.whole_seconds (drift_of r now)) inner,
                  length-put "netra.reported_occurred_at"
                      (f.rfc_3339 (claimed_time now r.occurred_at_ms)) m,
                );
              })
        | inr b ↦
            let (late, early) = undrifted now (claimed_time now r.occurred_at_ms) b in
            subst (λ z. IsNormal z device_id now)
              (sym (
                if_false _ (corrected_event r device_id now m) (claimed_event r device_id now m) b))
              (record {
                attributed = refl;
                received = refl;
                from_agent = refl;
                known_type = t;
                known_severity = s;
                not_late = late;
                not_early = early;
                few_entries = omega (arith, l);
              })
      ]

  copied :
      (o : Reason ⊎ Metadata) (e : Event)
      → with_metadata r device_id now o ≡ inr e
      → (m : Metadata) × (o ≡ inr m) × (settle_time r device_id now m ≡ e)
  copied (inl reason) e h = cc
  copied (inr m) e h = (m, refl, inr-injective (settle_time r device_id now m) e h)

  -- An inbound event that is accepted is normal, as `IsNormal` says.
  pub normalize-IsNormal :
      (e : Event) → normalize r device_id now ≡ inr e → IsNormal e device_id now
  unfolding normalize
  normalize-IsNormal e h =
      let (t, h1) = go_on (not (is_known_type r.event_type)) unknown_type _ e h in
      let (s, h2) =
        go_on (not (is_known_severity (default_severity r.severity))) unknown_severity _ e h1 in
      let (i, h3) = go_on (ltb max_event_id_len (len r.event_id)) event_id_length _ e h2 in
      let (n, h4) =
        go_on (ltb max_metadata_entries (length r.metadata)) metadata_entries
          (with_metadata r device_id now (copy_metadata r.metadata [])) e h3 in
      let (m, c, is) = copied (copy_metadata r.metadata []) e h4 in
      subst (λ z. IsNormal z device_id now) is
        (settle_time-IsNormal m (not_not _ t) (not_not _ s)
          (omega (arith, length-copy_metadata r.metadata [] m c, within (length r.metadata) n)))
    where
      not_not : (b : Bool) → not b ≡ false → b ≡ true
      not_not b h = ground arith

      within : (n : ℕ) → ltb max_metadata_entries n ≡ false → n ≤ max_metadata_entries
      within n h = ground arith
