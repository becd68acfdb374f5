-- ===== src/Fake.antt =====
-- Small concrete instances of the external services, at which the theorems are applied.
pub mod RedisTable
pub mod Bitmap
pub mod SortedSet
pub mod Documents
pub mod Broker
pub mod Services
pub mod Nearest
pub mod Drivers
pub mod Gateway
pub mod Accounts
pub mod Memory
