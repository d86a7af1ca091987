-- ===== src/Handoff.antt =====
-- crates/kvpack-handoff/src/error.rs: the errors of the live handoff between two processes.
pub mod Mux
pub mod Permits
pub mod Interrupt
pub mod Manifest
pub mod External
pub mod Mac
pub mod Verify
pub mod Bundle
pub mod Coordinator
mod Tests
mod TransferTests
mod PublicationTests
use kvpack.Base.{ℕ, String}

-- The messages: a fixed text, one that names a sequence, or a text with the number it is about.
pub data Message : Type 0 where
  text : String → Message
  exceeds_count duplicate : ℕ → Message
  numbered : String → ℕ → Message

pub data HandoffError : Type 0 where
  canonical : String → HandoffError
  cancelled deadline_exceeded : HandoffError
  io : String → HandoffError
  validation : Message → HandoffError
