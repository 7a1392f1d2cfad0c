-- ===== src/Rpc/Message.antt =====
-- src/rpc/message.hpp: the messages and their ids on the wire.
use mksync.Prelude.{ℕ, String, List}
use mksync.Core.Events.{ScreenInfo, InputEvent}

-- A `MessageId` is any `uint16_t` that comes off the wire; these are the ones with a name.
abbrev pub hello_id : ℕ
hello_id = 0

abbrev pub screens_id : ℕ
screens_id = 1

abbrev pub input_id : ℕ
input_id = 2

abbrev pub ping_id : ℕ
ping_id = 3

abbrev pub pong_id : ℕ
pong_id = 4

abbrev pub error_id : ℕ
error_id = 0xFFFF

pub record HelloMessage : Type 0 where
  pub version : ℕ
  pub machine_id : String
  pub name : String

pub data RpcMessage : Type 0 where
  hello : HelloMessage → RpcMessage
  screens : List ScreenInfo → RpcMessage
  input : InputEvent → RpcMessage
  ping : ℕ → RpcMessage
  pong : ℕ → RpcMessage
  error : String → RpcMessage

-- `T::Id` of the alternative that a message holds.
abbrev pub message_id : RpcMessage → ℕ
message_id (hello m) = hello_id
message_id (screens s) = screens_id
message_id (input e) = input_id
message_id (ping p) = ping_id
message_id (pong p) = pong_id
message_id (error t) = error_id
