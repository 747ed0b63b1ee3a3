-- ===== src/Protocol/Errors.antt =====
-- crates/protocol/src/local.rs, `ProtocolError`; the texts of foreign errors are left out.
use localreview.Prelude.{ℕ}
use localreview.Prelude.Text.{Bytes}

pub data ProtocolError : Type 0 where
  unsupported_version : (received supported : ℕ) → ProtocolError
  invalid_input malformed_frame : Bytes → ProtocolError
  authentication_failed : ProtocolError
  frame_too_large : ℕ → ProtocolError
  compression io serialization : ProtocolError
