-- ===== src/Tests/Rpc.antt =====
-- Framing with a serializer for pings only.
use mksync.Prelude.{ℕ, ◌≡◌, refl, List, [], ◌∷◌, ◌++◌, Option, none, some, ok, arith}
use mksync.Rpc.Message.{RpcMessage, hello, screens, input, ping, pong, error}
use mksync.Rpc.Transport.{Codec, IsFaithful, write_message, write_messages, read_messages}
use mksync.Rpc.Transport.Framing.{read_messages-write_messages}

serialize_ping : RpcMessage → Option (List ℕ)
serialize_ping (ping p) = some (p ∷ [])
serialize_ping (hello m) = none
serialize_ping (screens s) = none
serialize_ping (input e) = none
serialize_ping (pong p) = none
serialize_ping (error t) = none

parse_byte : List ℕ → Option ℕ
parse_byte [] = none
parse_byte (p ∷ rest) = some p

abbrev pings : Codec
pings = record {
  serialize = serialize_ping;
  parse_hello = λ b. none;
  parse_screens = λ b. none;
  parse_input = λ b. none;
  parse_error = λ b. none;
  parse_ping = parse_byte;
  parse_pong = λ b. none;
}

pings-IsFaithful : IsFaithful pings
unfolding serialize_ping parse_byte
pings-IsFaithful = record {
  hello_back = λ m b h. cc;
  screens_back = λ l b h. cc;
  input_back = λ e b h. cc;
  error_back = λ t b h. cc;
  ping_back = λ p b h. ground (arith, h);
  pong_back = λ p b h. cc;
}

abbrev two_pings : List ℕ
two_pings = 0 ∷ 1 ∷ 0 ∷ 3 ∷ 5 ∷ 0 ∷ 1 ∷ 0 ∷ 3 ∷ 6 ∷ []

write_two : write_messages pings (ping 5 ∷ ping 6 ∷ []) ≡ ok two_pings
unfolding write_messages write_message serialize_ping
write_two = refl

read_messages-write_messages_example :
    read_messages pings 2 (two_pings ++ 9 ∷ []) ≡ ok (ping 5 ∷ ping 6 ∷ [], 9 ∷ [])
read_messages-write_messages_example =
    read_messages-write_messages pings (ping 5 ∷ ping 6 ∷ []) two_pings (9 ∷ []) pings-IsFaithful
      write_two
