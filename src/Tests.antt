-- ===== src/Tests.antt =====
-- Runs of the models on concrete inputs, one for each property that has a hypothesis.
mod Uploads
mod Spooling
mod Logins
mod Web
mod Transfers
mod Files
mod Configured
mod Failures
mod Operations
mod Hashing
mod Services
