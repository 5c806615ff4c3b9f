-- ===== src/Lib.antt =====
-- NETRA: a verification of the decision core of the backend, which is written in Go.
--
-- The backend watches the sessions that people hold on enrolled devices. A device enrolls with a
-- token and signs its requests, and a session begins when the device of a user signs a challenge.
-- A device reports events, which are normalized and stored, and its security signals, which the
-- posture model scores; a user's sessions make the baseline that unusual behaviour is told from; the risk engine scores a session from that and
-- other signals and names its factors; the policy engine turns the assessment into a decision; the
-- evaluator applies the decision to the session, and opens or escalates an incident. What happens
-- is recorded in a log chained by hashes, and a limiter bounds the calls of each client.
--
-- Files and the code they model:
--   Risk/Model, Engine, Digits, Evaluate    backend/internal/risk/model.go, engine.go
--   Policy/Model, Engine, Defaults          backend/internal/policy/policy.go, defaults.go
--   Audit/Chain, Store                      backend/internal/audit/audit.go, store.go
--   RateLimit/Limiter                       backend/internal/httpapi/ratelimit.go
--   Posture/Model, Versions, Score          backend/internal/posture/signals.go, score.go
--   Trust/Sessions, Evaluator               backend/internal/trust/evaluator.go and the statements
--                                           of backend/internal/session/store.go and
--                                           backend/internal/risk/store.go
--   Incident/Store                          backend/internal/incident/incident.go
--   Device/Store, Signing, Gate             backend/internal/device/store.go, signing.go,
--                                           middleware.go
--   Device/Replay (prune_at)                backend/cmd/netrad/main.go, startNoncePruner
--   Session/Challenge, Begin                backend/internal/session/attestation.go, store.go
--   Telemetry/Event, Ingest                 backend/internal/telemetry/event.go, store.go
--   Behaviour/Baseline                      backend/internal/behaviour/baseline.go
--   Access/Identity, Guard                  backend/internal/identity/claims.go,
--                                           backend/internal/auth/auth.go
--   Policy/Versions                         backend/internal/policy/store.go
--   Config/Variables, Load                  backend/internal/config/config.go
-- The other files of these folders hold the theorems, Prelude what all of them share, and Tests the
-- theorems at concrete inputs. A definition carries the name of the function or type it models, in
-- snake_case for functions; a helper that models a part of a function says which part.
--
-- How the code is read:
--   * The weights and sums of the posture model come from the environment, and the parts of a version
--     from a device: they are 64-bit, and their wrap-around is written out. The other scores and
--     counts are small, and integers without bound. A time is the number of
--     nanoseconds since Go's zero time. Where a client chooses a time (Device, Session, Telemetry),
--     Time.Sub stops at the ends of Duration as in Go; elsewhere the differences that the code
--     compares are within 292 years.
--   * float64 is the interface Prelude/Double; theorems that need a law of it take it as a
--     hypothesis (IsExact), which exact arithmetic in tenths meets.
--   * The tables of package unicode are the record Unicode; json.Marshal, sha256 and the format of
--     times are the record Encoding of Audit/Chain. crypto/ed25519, sha256, base64 and hex are the
--     record Crypto of Device/Signing, and the records Signer and Attester say what a key, base64
--     and hex promise to the theorems that need it.
--   * A panic of the risk engine is none. An error is a value of the model's own types. A database
--     statement that fails changes nothing. Fault of Audit/Store says which call of Record fails,
--     and Fault of Device/Store which call of the transactions of Enroll and Begin; a commit can
--     fail in two ways, with the transaction undone or with the answer alone lost.
--   * What is read back of a row of the log is not always what was written: the record Columns of
--     Audit/Store says it for the types TIMESTAMPTZ, INET and JSONB.
--   * A mutex, an advisory lock or a single SQL statement makes an operation one step; sequences of
--     steps are lists or the relations Step and Steps of Trust/Sessions.
--   * The paged walk of the log's Verify runs on fuel, and more fuel than there are rows is enough,
--     since every page that is not the last one has a row. The digits of a number run on the
--     twelve bytes of the buffer, as in the code.
--
-- Not modelled: the queries that gather the inputs of an evaluation and the events derived from it,
-- the lists and searches of the stores, the verification of tokens, the stores that only read and write rows, the
-- HTTP routes, logging, the simulator; and the agent, the dashboard and the
-- deployment, which are not part of the backend.
pub mod Prelude
pub mod Risk
pub mod Policy
pub mod Audit
pub mod RateLimit
pub mod Posture
pub mod Trust
pub mod Incident
pub mod Tests
pub mod Device
pub mod Session
pub mod Telemetry
pub mod Behaviour
pub mod Access
pub mod Config
