-- ===== src/Trust/Final.antt =====
-- What the statements on the session table keep.
use netra.Prelude.{
  ◌≡◌, refl, sym, ap, ◌∙◌, Bool, ◌==◌, ==_iff, Option, none, some, Bool-cases, inl, inr, if_true,
  if_false,
}
use netra.Risk.Model.{Time, Uuid}
use netra.Trust.Sessions.{
  Status, ended, is_ended, Session, Sessions, change_open, update_open, set_status, touch,
  is_endable, end_session, insert_session, target, apply_target, apply_decision, Step, begun,
  decided, was_touched, was_scored, scored, change_row, record_risk, was_ended, Steps, done, next,
}

update_open-ended :
    (table : Sessions) (id k : Uuid) (f : Session → Session) (s : Session)
    → table k ≡ some s
    → s.status ≡ ended
    → update_open table id f k ≡ table k
update_open-ended table id k f s e h = elim (Bool-cases (k == id)) [
  | inl same ↦
      if_true (k == id) _ _ same
      ∙ ap (change_open f) e
      ∙ if_true (is_ended s.status) (some s) (some (f s)) (ap is_ended h)
      ∙ sym e
  | inr other ↦ if_false (k == id) _ _ other
]

apply_target-ended :
    (table : Sessions) (id k : Uuid) (o : Option Status) (now : Time) (s : Session)
    → table k ≡ some s
    → s.status ≡ ended
    → (apply_target table id o now).0 k ≡ table k
unfolding apply_target set_status
apply_target-ended table id k none now s e h = refl
apply_target-ended table id k (some status) now s e h = update_open-ended table id k _ s e h

-- The row is there, ENDED at the given time.
pub record IsEndedAt (at : Option Time) (row : Option Session) : Type 0 where
  pub session : Session
  pub stored : row ≡ some session
  pub status : session.status ≡ ended
  pub time : session.ended_at ≡ at

unchanged :
    (at : Option Time) (row later : Option Session)
    → later ≡ row
    → IsEndedAt at row
    → IsEndedAt at later
unchanged at row later e h = record {
  session = h.session;
  stored = e ∙ h.stored;
  status = h.status;
  time = h.time;
}

Step-IsEndedAt :
    {table later : Sessions} (k : Uuid) (at : Option Time)
    → Step table later
    → IsEndedAt at (table k)
    → IsEndedAt at (later k)
unfolding insert_session touch end_session apply_decision record_risk
Step-IsEndedAt k at (begun {table = table} id user_id device_id source_ip now fresh) h =
    elim (Bool-cases (k == id)) [
      | inl same ↦ some_not_none (sym h.stored ∙ ap table ((==_iff k id).0 same) ∙ fresh)
      | inr other ↦ unchanged at (table k) _ (if_false (k == id) _ _ other) h
    ]
  where
    some_not_none : {A : Type 0} {P : Type 0} {a : A} → some a ≡ none → P
    some_not_none h = cc
Step-IsEndedAt k at (decided {table = table} id decision now) h =
    unchanged at (table k) _
      (apply_target-ended table id k (target decision) now h.session h.stored h.status) h
Step-IsEndedAt k at (was_touched {table = table} id now) h =
    unchanged at (table k) _ (update_open-ended table id k _ h.session h.stored h.status) h
Step-IsEndedAt k at (was_scored {table = table} id score level now) h =
    elim (Bool-cases (k == id)) [
      | inl same ↦ record {
        session = scored score level now h.session;
        stored = if_true (k == id) _ _ same ∙ ap (change_row (scored score level now)) h.stored;
        status = h.status;
        time = h.time;
      }
      | inr other ↦ unchanged at (table k) _ (if_false (k == id) _ _ other) h
    ]
Step-IsEndedAt k at (was_ended {table = table} id user_id now) h =
    elim (Bool-cases (is_endable user_id (table id))) [
      | inl allowed ↦
          unchanged at (table k) _
            (ap (λ (r : Sessions × Bool). r.0 k)
                (if_true (is_endable user_id (table id)) _ _ allowed)
              ∙ update_open-ended table id k _ h.session h.stored h.status)
            h
      | inr refused ↦
          unchanged at (table k) _
            (ap (λ (r : Sessions × Bool). r.0 k)
              (if_false (is_endable user_id (table id)) _ _ refused))
            h
    ]

-- Once a session is ENDED it stays there, ENDED at the same time, whatever sessions are begun,
-- scored, decided on, touched or ended afterwards.
pub Steps-IsEndedAt :
    {table later : Sessions} (k : Uuid) (at : Option Time)
    → Steps table later
    → IsEndedAt at (table k)
    → IsEndedAt at (later k)
Steps-IsEndedAt k at done h = h
Steps-IsEndedAt k at (next step rest) h = Steps-IsEndedAt k at rest (Step-IsEndedAt k at step h)
