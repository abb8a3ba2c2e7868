-- ===== src/Message/Handshake.antt =====
-- The HEL message of src/server/ua_server_binary.c.
use opc_ua.Common.{
  ℕ, ◌≤◌, ◌≡◌, ◌≢◌, ◌⊎◌, refl, ap, ◌∙◌, arith, Bool-cases, inl, inr, true, false, leb, ◌==◌,
  if◌then◌else◌, Option, none, some, List, [], ◌∷◌, ◌++◌, length, take, split_at,
}
use opc_ua.Status.{good}
use opc_ua.Binary.Stream.{Stream, Outcome, done, overrun, Decoded, Allocator, to_le}
use opc_ua.Binary.Wire.{Writes, Writes-then}
use opc_ua.Binary.WordWire.{Writes-uint32}
use opc_ua.Message.Connecting.{
  Conf, Sent, acknowledged, overread, Server, HelloMessage, hello_decode, close_connection_of,
  negotiate, ack_type, ack_encode, sent_of, send_ack, hello_decoded, process_hello,
}

-- The bytes of an acknowledgement, after OPC UA part 6, section 7.1.2.4.
abbrev pub ack_wire : Conf → List ℕ
ack_wire c =
    to_le 4 ack_type
    ++ to_le 4 28
    ++ to_le 4 c.protocol_version
    ++ to_le 4 c.recv_buffer_size
    ++ to_le 4 c.send_buffer_size
    ++ to_le 4 c.max_message_size
    ++ to_le 4 c.max_chunk_count

Writes-ack : (c : Conf) → Writes (ack_encode c) (ack_wire c)
unfolding ack_encode
Writes-ack c =
    Writes-then _ _
      (Writes-then _ _
        (Writes-then _ _
          (Writes-then _ _
            (Writes-then _ _ (Writes-then _ _ (Writes-uint32 ack_type) (Writes-uint32 28))
              (Writes-uint32 c.protocol_version))
            (Writes-uint32 c.recv_buffer_size))
          (Writes-uint32 c.send_buffer_size))
        (Writes-uint32 c.max_message_size))
      (Writes-uint32 c.max_chunk_count)

-- The client is sent the acknowledgement if its own buffer holds the 28 bytes, and otherwise bytes
-- from behind the end of a buffer.
abbrev pub answer_of : Option (List ℕ) → ℕ → Conf → List Sent → List Sent
answer_of none size c sent = sent
answer_of (some buffer) size c sent =
    (if leb 28 size then acknowledged (ack_wire c) else overread) ∷ sent

sent_of-overread : (size : ℕ) (o : Outcome) → leb 28 size ≡ false → sent_of size o ≡ overread
unfolding sent_of
sent_of-overread size (done status t) short = rw short refl
sent_of-overread size overrun short = refl

sent_of-done :
    (size : ℕ) (o : Outcome) (t : Stream)
    → leb 28 size ≡ true
    → o ≡ done good t
    → sent_of size o ≡ acknowledged (take 28 t.bytes)
unfolding sent_of
sent_of-done size o t room e = rw (e, room) refl

-- A buffer of the size that is asked for is sent with the acknowledgement in it, or overread.
sent_of-ack :
    (buffer : List ℕ) (size : ℕ) (c : Conf)
    → length buffer ≡ size
    → sent_of (length buffer) (ack_encode c (record { bytes = buffer; offset = 0 }))
      ≡ (if leb 28 size then acknowledged (ack_wire c) else overread)
sent_of-ack buffer size c exact = elim (Bool-cases (leb 28 size)) [
  | inl room ↦
      let (mid, post, split, wide) = split_at 28 buffer (ground arith) in
      let written =
        ap (λ b. ack_encode c (record { bytes = b; offset = 0 })) split
        ∙ (Writes-ack c).run [] mid post wide in
      let fits : leb 28 (length buffer) ≡ true = ground arith in
      rw room (sent_of-done (length buffer) _ _ fits written)
  | inr short ↦
      let small : leb 28 (length buffer) ≡ false = ground arith in
      rw short (sent_of-overread (length buffer) _ small)
]

-- No buffer is larger than the one of the other side, or than it was before; and what is sent.
pub record Negotiated (get_send_buffer : ℕ → Option (List ℕ)) (h : HelloMessage)
    (before after : Server) : Type 0 where
  pub established : after.established ≡ true
  pub send_fits : after.local_conf.send_buffer_size ≤ h.receive_buffer_size
  pub send_shrinks : after.local_conf.send_buffer_size ≤ before.local_conf.send_buffer_size
  pub recv_fits : after.local_conf.recv_buffer_size ≤ h.send_buffer_size
  pub recv_shrinks : after.local_conf.recv_buffer_size ≤ before.local_conf.recv_buffer_size
  pub remote : after.remote_conf.recv_buffer_size ≡ h.receive_buffer_size
  pub shared : after.shared ≡ before.shared
  pub answer :
      after.sent
      ≡ answer_of
          (get_send_buffer h.receive_buffer_size)
          h.receive_buffer_size
          after.local_conf
          before.sent

module _ (get_send_buffer : ℕ → Option (List ℕ))
    (exact : (size : ℕ) (buffer : List ℕ)
      → get_send_buffer size ≡ some buffer
      → length buffer ≡ size) where
  send_ack-Negotiated :
      (h : HelloMessage) (sv : Server) (o : Option (List ℕ))
      → get_send_buffer h.receive_buffer_size ≡ o
      → Negotiated get_send_buffer h sv (send_ack o (negotiate h sv))
  send_ack-Negotiated h sv none e = record {
    established = refl;
    send_fits = ground arith;
    send_shrinks = ground arith;
    recv_fits = ground arith;
    recv_shrinks = ground arith;
    remote = refl;
    shared = refl;
    answer = rw e refl;
  }
  send_ack-Negotiated h sv (some buffer) e = record {
    established = refl;
    send_fits = ground arith;
    send_shrinks = ground arith;
    recv_fits = ground arith;
    recv_shrinks = ground arith;
    remote = refl;
    shared = refl;
    answer = rw e (
        ap (λ x. x ∷ sv.sent)
          (sent_of-ack buffer h.receive_buffer_size (negotiate h sv).local_conf
            (exact h.receive_buffer_size buffer e)));
  }

  hello_decoded-Negotiated :
      (conn : ℕ) (h : Decoded HelloMessage) (sv : Server)
      → ((h.status ≡ good)
          × Negotiated get_send_buffer h.value sv (hello_decoded get_send_buffer conn h sv))
        ⊎ ((h.status ≢ good)
            × (hello_decoded get_send_buffer conn h sv ≡ close_connection_of conn sv))
  unfolding hello_decoded
  hello_decoded-Negotiated conn h sv = elim (Bool-cases (h.status == good)) [
    | inr failed ↦ inr (ground (arith, failed), rw failed refl)
    | inl decoded ↦ inl (
      ground (arith, decoded),
      rw decoded
          (send_ack-Negotiated h.value sv (get_send_buffer h.value.receive_buffer_size) refl),
    )
  ]

  -- If the network layer gives buffers of the size that it is asked for, then a HEL message that can be
  -- decoded establishes the connection with sizes none of which is larger than the other side's or than
  -- before; if there is a buffer, and the client receives at least 28 bytes, it is sent the bytes of the
  -- acknowledgement with the sizes that are agreed on; and if it receives less, bytes behind the end of
  -- the buffer are sent. A HEL message that cannot be decoded only closes the connection.
  pub process_hello-Negotiated :
      ⦃memory : Allocator⦄
      → (conn : ℕ) (s : Stream) (sv : Server)
      → (((hello_decode s).status ≡ good)
          × Negotiated get_send_buffer
              (hello_decode s).value
              sv
              (process_hello get_send_buffer conn s sv))
        ⊎ (((hello_decode s).status ≢ good)
            × (process_hello get_send_buffer conn s sv ≡ close_connection_of conn sv))
  unfolding process_hello
  process_hello-Negotiated conn s sv = hello_decoded-Negotiated conn (hello_decode s) sv
