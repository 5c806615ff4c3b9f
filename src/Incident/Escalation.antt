-- ===== src/Incident/Escalation.antt =====
-- What an incident's row says after any sequence of writes.
use netra.Prelude.{
  ◌≡◌, refl, Bool, true, false, Option, none, some, String, List, [], ◌∷◌, ℤ, ltb_ℤ, ◌≤ℤ◌, All,
  if◌then◌else◌, arith,
}
use netra.Risk.Model.{Time}
use netra.Incident.Store.{
  Status, open_status, investigating, contained, resolved, false_positive, parse_status,
  status_text, Incident, Escalation, is_closed, open_or_escalate, set_status, Write, escalated,
  moved, write, writes,
}

-- Every status is read back from its text.
pub parse_status-status_text : (status : Status) → parse_status (status_text status) ≡ some status
unfolding parse_status
parse_status-status_text open_status = refl
parse_status-status_text investigating = refl
parse_status-status_text contained = refl
parse_status-status_text resolved = refl
parse_status-status_text false_positive = refl

-- The pair is one of the list.
pub data Among (p : String × ℤ) : List (String × ℤ) → Type 0 where
  here : {ps : List (String × ℤ)} → Among p (p ∷ ps)
  there : {q : String × ℤ} {ps : List (String × ℤ)} → Among p ps → Among p (q ∷ ps)

-- The row of an escalated incident: its severity and peak risk come from one escalation.
abbrev pub rated : Incident → String × ℤ
rated i = (i.severity, i.peak_risk)

-- A row's closing time is there exactly when its status is a closed one.
abbrev pub is_some {ℓ} : {A : Type ℓ} → Option A → Bool
is_some none = false
is_some (some a) = true

abbrev pub IsConsistent : Option Incident → Type 0
IsConsistent none = Unit
IsConsistent (some i) = is_some i.closed_at ≡ is_closed i.status

write-IsConsistent :
    (key : String) (row : Option Incident) (w : Write)
    → IsConsistent row
    → IsConsistent (write key row w)
unfolding write open_or_escalate set_status
write-IsConsistent key none (escalated x now) h = refl
write-IsConsistent key (some i) (escalated x now) h = h
write-IsConsistent key none (moved status now) h = tt
write-IsConsistent key (some i) (moved status now) h = ground arith

-- Whatever is escalated and whatever statuses analysts set, a row that starts without an incident
-- has a closing time exactly while its status is RESOLVED or FALSE_POSITIVE.
pub writes-IsConsistent :
    (key : String) (row : Option Incident) (ws : List Write)
    → IsConsistent row
    → IsConsistent (writes key row ws)
unfolding writes
writes-IsConsistent key row [] h = h
writes-IsConsistent key row (w ∷ ws) h =
    writes-IsConsistent key (write key row w) ws (write-IsConsistent key row w h)

-- The row holds an incident that is rated by one of the pairs, the one with the highest risk.
abbrev pub RatedBy : List (String × ℤ) → Option Incident → Type 0
RatedBy ps none = ⊥
RatedBy ps (some i) = Among (rated i) ps × All (λ q. q.1 ≤ℤ i.peak_risk) ps

-- The ratings of the escalations so far, the last one first.
abbrev pub ratings : List (String × ℤ) → List Write → List (String × ℤ)
ratings ps [] = ps
ratings ps (escalated x now ∷ ws) = ratings ((x.severity, x.risk) ∷ ps) ws
ratings ps (moved status now ∷ ws) = ratings ps ws

raise_All :
    (a b : ℤ) (ps : List (String × ℤ)) → a ≤ℤ b → All (λ q. q.1 ≤ℤ a) ps → All (λ q. q.1 ≤ℤ b) ps
raise_All a b [] h k = tt
raise_All a b (q ∷ qs) h (k, ks) = (omega arith, raise_All a b qs h ks)

lt_le : (a b : ℤ) → ltb_ℤ a b ≡ true → a ≤ℤ b
lt_le a b h = ground arith

ge_le : (a b : ℤ) → ltb_ℤ a b ≡ false → b ≤ℤ a
ge_le a b h = ground arith

le_refl : (a : ℤ) → a ≤ℤ a
le_refl a = omega arith

-- The rating after an escalation, by whether its risk is higher.
rated_by_higher :
    (i : Incident) (x : Escalation) (ps : List (String × ℤ)) (b : Bool)
    → ltb_ℤ i.peak_risk x.risk ≡ b
    → Among (rated i) ps
    → All (λ q. q.1 ≤ℤ i.peak_risk) ps
    → Among
        (if b then x.severity else i.severity, if b then x.risk else i.peak_risk)
        ((x.severity, x.risk) ∷ ps)
      × All (λ q. q.1 ≤ℤ (if b then x.risk else i.peak_risk)) ((x.severity, x.risk) ∷ ps)
rated_by_higher i x ps true e h k =
    (here, (le_refl x.risk, raise_All i.peak_risk x.risk ps (lt_le i.peak_risk x.risk e) k))
rated_by_higher i x ps false e h k = (there h, (ge_le i.peak_risk x.risk e, k))

RatedBy-escalated :
    (key : String) (row : Option Incident) (x : Escalation) (now : Time) (ps : List (String × ℤ))
    → RatedBy ps row
    → RatedBy ((x.severity, x.risk) ∷ ps) (some (open_or_escalate key row x now))
unfolding open_or_escalate
RatedBy-escalated key none x now ps h = elim h [ ]
RatedBy-escalated key (some i) x now ps (h, k) =
    rated_by_higher i x ps (ltb_ℤ i.peak_risk x.risk) refl h k

RatedBy-moved :
    (row : Option Incident) (status : Status) (now : Time) (ps : List (String × ℤ))
    → RatedBy ps row
    → RatedBy ps (set_status row status now)
unfolding set_status
RatedBy-moved none status now ps h = h
RatedBy-moved (some i) status now ps h = h

RatedBy-writes :
    (key : String) (row : Option Incident) (ws : List Write) (ps : List (String × ℤ))
    → RatedBy ps row
    → RatedBy (ratings ps ws) (writes key row ws)
unfolding writes write
RatedBy-writes key row [] ps h = h
RatedBy-writes key row (escalated x now ∷ ws) ps h =
    RatedBy-writes key (some (open_or_escalate key row x now)) ws ((x.severity, x.risk) ∷ ps)
      (RatedBy-escalated key row x now ps h)
RatedBy-writes key row (moved status now ∷ ws) ps h =
    RatedBy-writes key (set_status row status now) ws ps (RatedBy-moved row status now ps h)

-- After a first escalation of a key, and any further escalations and status changes, the row holds
-- an incident whose severity and peak risk are those of one of the escalations, and no escalation
-- had a higher risk.
pub writes-RatedBy :
    (key : String) (x : Escalation) (now : Time) (ws : List Write)
    → RatedBy (ratings ((x.severity, x.risk) ∷ []) ws) (writes key none (escalated x now ∷ ws))
unfolding writes write open_or_escalate
writes-RatedBy key x now ws =
    RatedBy-writes key (some (open_or_escalate key none x now)) ws ((x.severity, x.risk) ∷ [])
      (here, (le_refl x.risk, tt))

-- A sequence of escalations only.
abbrev pub only_escalates : List (Escalation × Time) → List Write
only_escalates [] = []
only_escalates ((x, now) ∷ xs) = escalated x now ∷ only_escalates xs

abbrev pub status_of : Option Incident → Option Status
status_of none = none
status_of (some i) = some i.status

-- Escalations never change the status of an incident that is there: one that is closed takes every
-- later escalation of its session and stays closed.
pub writes_keep_status :
    (key : String) (i : Incident) (xs : List (Escalation × Time))
    → status_of (writes key (some i) (only_escalates xs)) ≡ some i.status
unfolding writes write open_or_escalate
writes_keep_status key i [] = refl
writes_keep_status key i ((x, now) ∷ xs) =
    writes_keep_status key (open_or_escalate key (some i) x now) xs
