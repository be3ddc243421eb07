-- ===== src/Dto.antt =====
-- The requests that the servers hand on (src/libs/dto.h).
use cpp_chat_channel.Base.{ℕ, Bytes}

pub data MsgType : Type 0 where
  user system : MsgType

-- `timestamp` is a msec64 and `channel_id` a ch_id_t.
pub record MessageReqDto : Type 0 where
  pub type : MsgType
  pub text : Bytes
  pub timestamp : ℕ
  pub user_name : Bytes
  pub channel_id : ℕ

pub record JoinReqDto : Type 0 where
  pub ch_from : ℕ
  pub ch_to : ℕ
  pub timestamp : ℕ
  pub user_name : Bytes
