-- ===== src/Worker.antt =====
-- internal/worker and the device guard of internal/config: jobs from their claim to the certificate.
pub mod Names
pub mod Certify
pub mod Job
pub mod Outcomes
pub mod Certified
pub mod Reverify
pub mod Scheduler
pub mod Slots
pub mod Locks
pub mod Reclaims
pub mod Flights
pub mod Resumed
