-- ===== src/Fragment.antt =====
-- `struct Fragment` of backend/src/database.hpp.
use frag.Prelude.Int.{ℤ}
use frag.Text.{Bytes}

pub record Fragment : Type 0 where
  pub id : Bytes
  pub message_id : Bytes
  pub chat_id : Bytes
  pub sender_hash : Bytes
  pub payload : Bytes
  pub timestamp : ℤ
  pub ttl : ℤ
