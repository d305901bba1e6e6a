-- ===== src/Http.antt =====
-- deployables/backend/internal/httpapi: the handlers, what guards them, and what they promise.
pub mod World
pub mod Rules
pub mod Login
pub mod Account
pub mod Devices
pub mod Usage
pub mod Session
pub mod Router
pub mod Revoked
pub mod Backups
pub mod Uploads
pub mod Frame
pub mod UploadOutcome
pub mod SlotEnd
pub mod UploadResult
pub mod Redeemed
pub mod Handshake
pub mod Verified
pub mod Gone
pub mod Guarded
pub mod Infer
pub mod Charging
pub mod Encoding
pub mod Encoded
pub mod Rank
pub mod Limiter
pub mod Slots
pub mod SlotsKept
pub mod Copied
pub mod Client
pub mod Health
