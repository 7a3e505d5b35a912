-- ===== src/Tests.antt =====
-- Runs of the definitions at small inputs, and the theorems at inputs that meet their hypotheses.
mod Limiter
mod Cached
mod Values
mod Addresses
mod Keys
mod Requests
mod Services
mod Settings
mod Passwords
mod Running
mod Lives
mod Answers
mod Trees
mod Started
mod Handles
mod Wired
