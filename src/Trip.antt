-- ===== src/Trip.antt =====
-- services/trip-service
pub mod Domain
pub mod World
pub mod Frames
pub mod Repository
pub mod DriverConsumer
pub mod Service
pub mod Fares
pub mod PaymentConsumer
pub mod Inmem
