-- ===== src/Examples.antt =====
-- The theorems at concrete inputs, with the external services of the module `Fake`.
mod Messages
mod Caches
mod Trips
mod Service
mod Payments
mod Webhook
mod Drivers
mod Gateway
mod Accounts
