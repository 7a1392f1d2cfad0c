-- ===== src/Rpc/Transport.antt =====
-- src/rpc/transport.hpp and src/rpc/transport.cpp: a message on the stream is a header, the size and
-- the id of 16 bits each with the high byte first, and the payload.
pub mod Framing
use mksync.Prelude.{
  ℕ, zero, suc, ◌+◌, ◌*◌, ◌/◌, ◌%◌, ◌≡◌, ◌<◌, ◌==◌, ltb, Bool, true, false, String, List, [], ◌∷◌,
  ◌++◌, Option, none, some, Result, ok, err, ◌>>=◌, if◌then◌else◌, length, All,
}
use mksync.Core.Events.{ScreenInfo, InputEvent}
use mksync.Rpc.Message.{
  RpcMessage, hello, screens, input, ping, pong, error, HelloMessage, message_id, hello_id,
  screens_id, input_id, ping_id, pong_id, error_id,
}

-- The errors of `RpcError`.
pub data RpcError : Type 0 where
  unknown_message_type protocol_error message_too_large : RpcError

-- An operation on the stream fails with its own error, here the end of the stream, or with one of
-- the transport.
pub data TransportError : Type 0 where
  rpc : RpcError → TransportError
  end_of_stream : TransportError

-- The serializer, a library: bytes of each message, and a parser for each kind of message.
pub record Codec : Type 0 where
  pub serialize : RpcMessage → Option (List ℕ)
  pub parse_hello : List ℕ → Option HelloMessage
  pub parse_screens : List ℕ → Option (List ScreenInfo)
  pub parse_input : List ℕ → Option InputEvent
  pub parse_error : List ℕ → Option String
  pub parse_ping : List ℕ → Option ℕ
  pub parse_pong : List ℕ → Option ℕ

-- `writeU16Be`.
abbrev pub u16_be : ℕ → List ℕ
u16_be n = n / 256 % 256 ∷ n % 256 ∷ []

abbrev pub write_header : ℕ → ℕ → List ℕ
write_header size id = u16_be size ++ u16_be id

-- `readU16Be`.
abbrev pub read_u16_be : List ℕ → Result TransportError (ℕ × List ℕ)
read_u16_be [] = err end_of_stream
read_u16_be (a ∷ []) = err end_of_stream
read_u16_be (a ∷ b ∷ rest) = ok (a * 256 + b, rest)

unfoldable pub read_header : List ℕ → Result TransportError (ℕ × ℕ × List ℕ)
read_header stream = do
  (size, after_size) ← read_u16_be stream
  (id, rest) ← read_u16_be after_size
  ok (size, id, rest)

-- `readAll` into a buffer of the given size.
unfoldable pub read_all : ℕ → List ℕ → Result TransportError (List ℕ × List ℕ)
read_all zero stream = ok ([], stream)
read_all (suc n) [] = err end_of_stream
read_all (suc n) (a ∷ stream) = do (buffer, rest) ← read_all n stream; ok (a ∷ buffer, rest)

-- What a parser gave, or the error of a failed one.
abbrev pub parsed {ℓ} :
    {A : Type ℓ} → (A → RpcMessage) → Option A → Result TransportError RpcMessage
parsed make none = err (rpc unknown_message_type)
parsed make (some a) = ok (make a)

-- The first alternative with this id.
unfoldable pub find_by_id : Codec → ℕ → List ℕ → Result TransportError RpcMessage
find_by_id codec id buffer =
    if hello_id == id
    then parsed hello (codec.parse_hello buffer)
    else if screens_id == id
    then parsed screens (codec.parse_screens buffer)
    else if input_id == id
    then parsed input (codec.parse_input buffer)
    else if ping_id == id
    then parsed ping (codec.parse_ping buffer)
    else if pong_id == id
    then parsed pong (codec.parse_pong buffer)
    else if error_id == id
    then parsed error (codec.parse_error buffer)
    else err (rpc unknown_message_type)

-- The bytes that go to the stream.
unfoldable pub write_message : Codec → RpcMessage → Result TransportError (List ℕ)
write_message codec message = elim (codec.serialize message) [
  | none ↦ err (rpc unknown_message_type)
  | some buffer ↦
      if ltb 65535 (length buffer)
      then err (rpc message_too_large)
      else ok (write_header (length buffer) (message_id message) ++ buffer)
]

-- The message, and what is left of the stream.
unfoldable pub read_message : Codec → List ℕ → Result TransportError (RpcMessage × List ℕ)
unfolding read_header read_all find_by_id
read_message codec stream = do
  (size, id, after_header) ← read_header stream
  (buffer, rest) ← read_all size after_header
  message ← find_by_id codec id buffer
  ok (message, rest)

-- A parser reads back what the serializer wrote.
pub record IsFaithful (codec : Codec) : Type 0 where
  pub hello_back :
      (m : HelloMessage) (b : List ℕ)
      → codec.serialize (hello m) ≡ some b
      → codec.parse_hello b ≡ some m
  pub screens_back :
      (l : List ScreenInfo) (b : List ℕ)
      → codec.serialize (screens l) ≡ some b
      → codec.parse_screens b ≡ some l
  pub input_back :
      (e : InputEvent) (b : List ℕ)
      → codec.serialize (input e) ≡ some b
      → codec.parse_input b ≡ some e
  pub error_back :
      (t : String) (b : List ℕ) → codec.serialize (error t) ≡ some b → codec.parse_error b ≡ some t
  pub ping_back :
      (p : ℕ) (b : List ℕ) → codec.serialize (ping p) ≡ some b → codec.parse_ping b ≡ some p
  pub pong_back :
      (p : ℕ) (b : List ℕ) → codec.serialize (pong p) ≡ some b → codec.parse_pong b ≡ some p

-- The loops of the two ends: messages written one after the other, and that many read.
unfoldable pub write_messages : Codec → List RpcMessage → Result TransportError (List ℕ)
write_messages codec [] = ok []
write_messages codec (m ∷ rest) = do
  first ← write_message codec m
  later ← write_messages codec rest
  ok (first ++ later)

unfoldable pub read_messages : Codec → ℕ → List ℕ → Result TransportError (List RpcMessage × List ℕ)
read_messages codec zero stream = ok ([], stream)
read_messages codec (suc n) stream = do
  (m, after) ← read_message codec stream
  (rest, left) ← read_messages codec n after
  ok (m ∷ rest, left)
