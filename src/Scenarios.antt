-- ===== src/Scenarios.antt =====
-- The development at concrete inputs: small stores and devices, and what the theorems say of them.
mod Scenes
mod Stores
mod Services
mod Erasures
mod Workers
mod Resumes
mod Scheduling
mod Requests
mod Databases
mod Buckets
