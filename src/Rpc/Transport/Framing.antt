-- ===== src/Rpc/Transport/Framing.antt =====
-- src/rpc/transport.cpp: what is read is what was written, message by message.
use mksync.Prelude.{
  ℕ, zero, suc, ◌+◌, ◌*◌, ◌/◌, ◌%◌, ◌≡◌, ◌<◌, ◌≤◌, refl, sym, ◌⊎◌, inl, inr, ltb, List, [], ◌∷◌,
  ◌++◌, none, some, ok, err, length, All, arith, Option-cases, Bool-cases, Result-cases,
}
use mksync.Rpc.Message.{RpcMessage, hello, screens, input, ping, pong, error, message_id}
use mksync.Rpc.Transport.{
  Codec, IsFaithful, rpc, end_of_stream, write_header, read_header, read_all, find_by_id,
  write_message, read_message, write_messages, read_messages, message_too_large,
  unknown_message_type,
}

u16_back : (n : ℕ) → n ≤ 65535 → n / 256 % 256 * 256 + n % 256 ≡ n
u16_back n h = omega arith

message_id-le : (m : RpcMessage) → message_id m ≤ 65535
message_id-le (hello m) = omega arith
message_id-le (screens l) = omega arith
message_id-le (input e) = omega arith
message_id-le (ping p) = omega arith
message_id-le (pong p) = omega arith
message_id-le (error t) = omega arith

read_all-length :
    (buffer rest : List ℕ) → read_all (length buffer) (buffer ++ rest) ≡ ok (buffer, rest)
unfolding read_all
read_all-length [] rest = refl
read_all-length (a ∷ buffer) rest = rw (read_all-length buffer rest)

-- The id of a message finds the parser of its kind.
find_by_id-message_id :
    (codec : Codec) (m : RpcMessage) (b : List ℕ)
    → IsFaithful codec
    → codec.serialize m ≡ some b
    → find_by_id codec (message_id m) b ≡ ok m
unfolding find_by_id
find_by_id-message_id codec (hello m) b f h = rw (f.hello_back m b h)
find_by_id-message_id codec (screens l) b f h = rw (f.screens_back l b h)
find_by_id-message_id codec (input e) b f h = rw (f.input_back e b h)
find_by_id-message_id codec (ping p) b f h = rw (f.ping_back p b h)
find_by_id-message_id codec (pong p) b f h = rw (f.pong_back p b h)
find_by_id-message_id codec (error t) b f h = rw (f.error_back t b h)

-- What a successful write has put on the stream.
write_message_ok :
    (codec : Codec) (m : RpcMessage) (bytes : List ℕ)
    → write_message codec m ≡ ok bytes
    → (b : List ℕ) × (codec.serialize m ≡ some b)
      × (length b ≤ 65535)
      × (bytes ≡ write_header (length b) (message_id m) ++ b)
unfolding write_message
write_message_ok codec m bytes h = elim (Option-cases (codec.serialize m)) [
  | inl e ↦ ground (arith, e, h)
  | inr (b, e) ↦ (b, e, ground (arith, e, h), ground (arith, e, h))
]

append_assoc : (a b c : List ℕ) → (a ++ b) ++ c ≡ a ++ (b ++ c)
append_assoc [] b c = refl
append_assoc (x ∷ a) b c = rw (append_assoc a b c)

-- If the serializer's parsers read back what it wrote, a message that was written, followed by
-- anything, is read back, and what follows it is left on the stream.
pub read_message-write_message :
    (codec : Codec) (m : RpcMessage) (bytes rest : List ℕ)
    → IsFaithful codec
    → write_message codec m ≡ ok bytes
    → read_message codec (bytes ++ rest) ≡ ok (m, rest)
unfolding read_message read_header
read_message-write_message codec m bytes rest f h =
    let (b, e, l, w) = write_message_ok codec m bytes h in
    rw (
      w,
      u16_back (length b) l,
      u16_back (message_id m) (message_id-le m),
      read_all-length b rest,
      find_by_id-message_id codec m b f e,
    )

-- If the serializer's parsers read back what it wrote, then messages written one after the other are
-- read back in their order, and nothing else is taken from the stream.
pub read_messages-write_messages :
    (codec : Codec) (l : List RpcMessage) (bytes rest : List ℕ)
    → IsFaithful codec
    → write_messages codec l ≡ ok bytes
    → read_messages codec (length l) (bytes ++ rest) ≡ ok (l, rest)
unfolding write_messages read_messages
read_messages-write_messages codec [] bytes rest f h = ground (arith, h)
read_messages-write_messages codec (m ∷ l) bytes rest f h =
    elim (Result-cases (write_message codec m)) [
      | inr (x, e) ↦ ground (arith, e, h)
      | inl (first, e) ↦ elim (Result-cases (write_messages codec l)) [
        | inr (x, k) ↦ ground (arith, e, k, h)
        | inl (later, k) ↦
            let w : first ++ later ≡ bytes = ground (arith, e, k, h) in
            rw (
              sym w,
              append_assoc first later rest,
              read_message-write_message codec m first (later ++ rest) f e,
              read_messages-write_messages codec l later rest f k,
            )
      ]
    ]

AreBytes : List ℕ → Type 0
AreBytes = All (λ b. b < 256)

-- A write either fails with one of two errors of the transport and puts nothing on the stream, or it
-- puts four bytes and the payload there: it fails exactly if the serializer does or the payload is
-- longer than a 16-bit size can say.
pub write_message_cases :
    (codec : Codec) (m : RpcMessage)
    → ((codec.serialize m ≡ none) × (write_message codec m ≡ err (rpc unknown_message_type)))
      ⊎ ((b : List ℕ) × (codec.serialize m ≡ some b)
          × (65535 < length b)
          × (write_message codec m ≡ err (rpc message_too_large)))
      ⊎ ((b : List ℕ) × (codec.serialize m ≡ some b)
          × (length b ≤ 65535)
          × (write_message codec m ≡ ok (write_header (length b) (message_id m) ++ b)))
unfolding write_message
write_message_cases codec m = elim (Option-cases (codec.serialize m)) [
  | inl e ↦ inl (e, rw (e, write_message))
  | inr (b, e) ↦ elim (Bool-cases (ltb 65535 (length b))) [
    | inl t ↦ inr (inl (b, e, ground (arith, t), rw (e, write_message, t)))
    | inr t ↦ inr (inr (b, e, ground (arith, t), rw (e, write_message, t)))
  ]
]

read_all_short :
    (n : ℕ) (stream : List ℕ) → length stream < n → read_all n stream ≡ err end_of_stream
unfolding read_all
read_all_short zero stream h = absurd (omega arith)
read_all_short (suc n) [] h = refl
read_all_short (suc n) (a ∷ stream) h = rw (read_all_short n stream (omega arith))

-- A stream that ends inside the payload is reported as such, whatever its id.
read_message_truncated :
    (codec : Codec) (size id : ℕ) (part : List ℕ)
    → size ≤ 65535
    → id ≤ 65535
    → length part < size
    → read_message codec (write_header size id ++ part) ≡ err end_of_stream
unfolding read_message read_header
read_message_truncated codec size id part h k short =
    rw (u16_back size h, u16_back id k, read_all_short size part short)
