-- ===== src/Tests.antt =====
-- Runs of the modelled code on concrete inputs, and the theorems applied to them.
mod Risk
mod Policy
mod Audit
mod RateLimit
mod Posture
mod Trust
mod Incident
mod Device
mod Session
mod Telemetry
mod Behaviour
mod Access
mod Versions
mod Config
