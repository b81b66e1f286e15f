-- ===== src/Scheduler/WakeUp/Session.antt =====
-- What a session with a device sends and needs (src/scheduler/task/wake_up_device.rs).
use head_end_system_tpp.Prelude.{take-ne-nil}
use head_end_system_tpp.Prelude.{
  ℕ, ◌≡◌, ◌≢◌, refl, sym, ap, ◌∙◌, Bool, true, false, Option, none, some, List, [], ◌∷◌, ◌++◌, ◌+◌,
  ◌/◌, if◌then◌else◌, take, Bool-cases, inl, inr,
}
use head_end_system_tpp.Wire.{Bytes}
use head_end_system_tpp.Wire as W
use head_end_system_tpp.Messages.{
  MessageError, Message, MessagePayload, ObisValue, HandshakeResponseMessage, WriteResponseMessage,
}
use head_end_system_tpp.Messages as Types
use head_end_system_tpp.Messages.Rlp.{Rlp}
use head_end_system_tpp.Messages.Create as New
use head_end_system_tpp.Messages.Codec.{codec_decode, codec_encode, too_short}
use head_end_system_tpp.Messages.Complete.{IsSettled, codec_decode-IsSettled}
use head_end_system_tpp.Scheduler.WakeUp.{
  TaskError, io_error, Result, ok, err, panic, Received, timed_out, failed, datagram, Peer, Session,
  continue, ◌>>=◌, ◌>>◌, check, lift, of_message, expect_handshake_response, expect_read_response,
  expect_write_response, obis_codes, send_msg, decode_received, recv_msg, nonce, write_parameters,
  exchange,
}

module _ (wire : Bytes) (rlp : Rlp) (peer : Peer) where
  settled-ne-panic :
      (packet : List ℕ) (o : W.Outcome Types.MsgCodecError (Option Message))
      → codec_decode wire rlp (take 4096 packet) ≡ o
      → IsSettled o
      → decode_received wire rlp peer packet ≢ panic
  unfolding decode_received
  settled-ne-panic packet (W.ok (some m) rest) e s = rw (e, decode_received) (λ p. cc)
  settled-ne-panic packet (W.ok none rest) e s = absurd s
  settled-ne-panic packet (W.err x rest) e s = rw (e, decode_received) (λ p. cc)
  settled-ne-panic packet W.panic e s = absurd s

  empty_packet : decode_received wire rlp peer [] ≡ err io_error
  unfolding decode_received codec_decode too_short
  empty_packet = refl

  some_packet : (b : ℕ) (bs : List ℕ) → decode_received wire rlp peer (b ∷ bs) ≢ panic
  some_packet b bs =
      settled-ne-panic (b ∷ bs) (codec_decode wire rlp (take 4096 (b ∷ bs))) refl
        (codec_decode-IsSettled wire rlp (take 4096 (b ∷ bs)) (take-ne-nil 4095 b bs)).0

  -- No packet of a device makes a session panic.
  pub recv_msg-ne-panic : (r : Received) → recv_msg wire rlp peer r ≢ panic
  unfolding recv_msg
  recv_msg-ne-panic timed_out e = cc
  recv_msg-ne-panic failed e = cc
  recv_msg-ne-panic (datagram []) e = cc (empty_packet, e)
  recv_msg-ne-panic (datagram (b ∷ bs)) e = some_packet b bs e

-- The payloads of the answers that a session takes.
handshake_answer :
    (m : Message) (p : MessagePayload)
    → m.payload ≡ p
    → expect_handshake_response m ≡ ok tt
    → (r : HandshakeResponseMessage) × (p ≡ MessagePayload.handshake_response r)
unfolding expect_handshake_response
handshake_answer m (MessagePayload.handshake_response r) e h = (r, refl)
handshake_answer m p e h = absurd (cc (rw e at h))

read_answer :
    (m : Message) (p : MessagePayload) (values : List ObisValue)
    → m.payload ≡ p
    → expect_read_response m ≡ ok values
    → p ≡ MessagePayload.read_response (record { values = values })
unfolding expect_read_response
read_answer m (MessagePayload.read_response r) values e h =
    let same : r.values ≡ values = cc (rw e at h) in
    ap (λ vs. MessagePayload.read_response (record { values = vs })) same
read_answer m p values e h = absurd (cc (rw e at h))

write_answer :
    (m : Message) (p : MessagePayload)
    → m.payload ≡ p
    → expect_write_response m ≡ ok tt
    → (r : WriteResponseMessage) × (p ≡ MessagePayload.write_response r)
unfolding expect_write_response
write_answer m (MessagePayload.write_response r) e h = (r, refl)
write_answer m p e h = absurd (cc (rw e at h))

-- One step of a session that ends well, and that step again.
module _ {A B : Type 0} (t : List (List ℕ)) (v : B) where
  after_lift :
      (r : Result A) (f : A → Session B) (sent : List (List ℕ))
      → (lift r >>= f) sent ≡ (t, ok v)
      → (a : A) × (r ≡ ok a) × (f a sent ≡ (t, ok v))
  unfolding ◌>>=◌
  after_lift (ok a) f sent h = (a, refl, h)
  after_lift (err e) f sent h = absurd (cc (ap (λ p. p.1) h))
  after_lift panic f sent h = absurd (cc (ap (λ p. p.1) h))

  do_lift :
      (r : Result A) (f : A → Session B) (sent : List (List ℕ)) (a : A)
      → r ≡ ok a
      → f a sent ≡ (t, ok v)
      → (lift r >>= f) sent ≡ (t, ok v)
  unfolding ◌>>=◌
  do_lift r f sent a e h = rw (e, continue) h

module _ {B : Type 0} (t : List (List ℕ)) (v : B) where
  after_check :
      (b : Bool) (e : TaskError) (k : Session B) (sent : List (List ℕ))
      → (check b e >> k) sent ≡ (t, ok v)
      → (b ≡ true) × (k sent ≡ (t, ok v))
  unfolding ◌>>=◌
  after_check true e k sent h = (refl, h)
  after_check false e k sent h = absurd (cc (ap (λ p. p.1) h))

  do_check :
      (b : Bool) (e : TaskError) (k : Session B) (sent : List (List ℕ))
      → b ≡ true
      → k sent ≡ (t, ok v)
      → (check b e >> k) sent ≡ (t, ok v)
  unfolding ◌>>=◌
  do_check b e k sent passes h = rw (passes, check, continue) h

  module _ (wire : Bytes) (rlp : Rlp) (peer : Peer) where
    after_send :
        (seq : ℕ) (made : Types.Result MessageError Message) (k : Session B) (sent : List (List ℕ))
        → (send_msg wire rlp peer seq made >> k) sent ≡ (t, ok v)
        → (m : Message) × (made ≡ Types.Result.ok m)
          × (peer.takes seq ≡ true)
          × (k (sent ++ codec_encode wire rlp m ∷ []) ≡ (t, ok v))
    unfolding ◌>>=◌ send_msg
    after_send seq (Types.Result.err e) k sent h = absurd (cc (ap (λ p. p.1) h))
    after_send seq (Types.Result.ok m) k sent h = elim (Bool-cases (peer.takes seq)) [
      | inl taken ↦ (m, refl, taken, rw taken at h)
      | inr refused ↦ absurd (cc (ap (λ p. p.1) (rw refused at h)))
    ]

    do_send :
        (seq : ℕ) (made : Types.Result MessageError Message) (k : Session B) (sent : List (List ℕ))
        (m : Message)
        → made ≡ Types.Result.ok m
        → peer.takes seq ≡ true
        → k (sent ++ codec_encode wire rlp m ∷ []) ≡ (t, ok v)
        → (send_msg wire rlp peer seq made >> k) sent ≡ (t, ok v)
    unfolding ◌>>=◌ send_msg
    do_send seq made k sent m e taken h = rw (e, of_message, taken, continue) h

-- The socket, the four messages that were made and taken, and the three answers, each of its type.
pub record Succeeds (wire : Bytes) (rlp : Rlp) (peer : Peer) (id : ℕ) (battery : Bool)
    (sent : List (List ℕ)) (values : List ObisValue) : Type 0 where
  pub bound : peer.binds ≡ true
  pub connected : peer.connects ≡ true
  pub handshake : Message
  pub made0 : New.new_handshake_message (peer.clock 0) id 0 nonce ≡ Types.Result.ok handshake
  pub taken0 : peer.takes 0 ≡ true
  pub reply0 : Message
  pub got0 : recv_msg wire rlp peer (peer.receives 0) ≡ ok reply0
  pub response0 : HandshakeResponseMessage
  pub right0 : reply0.payload ≡ MessagePayload.handshake_response response0
  pub read : Message
  pub made1 :
      New.new_read_request_message (peer.clock 1) id 1 (
        (49 ∷ 46 ∷ 48 ∷ 46 ∷ 49 ∷ [])
        ∷ (48 ∷ 46 ∷ 57 ∷ 46 ∷ 52 ∷ [])
        ∷ (if battery then (67 ∷ 46 ∷ 54 ∷ 46 ∷ 49 ∷ []) ∷ [] else []))
      ≡ Types.Result.ok read
  pub taken1 : peer.takes 1 ≡ true
  pub reply1 : Message
  pub got1 : recv_msg wire rlp peer (peer.receives 1) ≡ ok reply1
  pub right1 : reply1.payload ≡ MessagePayload.read_response (record { values = values })
  pub write : Message
  pub made2 :
      New.new_write_request_message (peer.clock 2) id 2 (
        record {
          code = 48 ∷ 46 ∷ 48 ∷ 46 ∷ 49 ∷ [];
          value = wire.put_uint 8 ((peer.utc_now + 86400000000000) / 1000000000);
        }
        ∷ [])
      ≡ Types.Result.ok write
  pub taken2 : peer.takes 2 ≡ true
  pub reply2 : Message
  pub got2 : recv_msg wire rlp peer (peer.receives 2) ≡ ok reply2
  pub response2 : WriteResponseMessage
  pub right2 : reply2.payload ≡ MessagePayload.write_response response2
  pub ack : Message
  pub made3 : New.new_ack_message (peer.clock 3) id 3 ≡ Types.Result.ok ack
  pub taken3 : peer.takes 3 ≡ true
  pub packets :
      sent
      ≡ codec_encode wire rlp handshake
        ∷ codec_encode wire rlp read
        ∷ codec_encode wire rlp write
        ∷ codec_encode wire rlp ack
        ∷ []

ended :
    {B : Type 0} (sent t : List (List ℕ)) (u v : B)
    → lift (ok u) sent ≡ (t, ok v)
    → (t ≡ sent) × (u ≡ v)
ended sent t u v h = (sym (ap (λ p. p.0) h), cc (ap (λ p. p.1) h))

module _ (wire : Bytes) (rlp : Rlp) (peer : Peer) (id : ℕ) (battery : Bool) where
  -- An exchange that returns values has sent its four packets, and no others. The peer had taken
  -- the handshake, and answered with a handshake response. It had taken the request to read the
  -- volume, the clock and, if asked for, the battery, and answered with a read response that holds
  -- exactly the values. It had taken the request to write the time a day from now, and answered
  -- with a write response. It took the acknowledgement.
  pub exchange-Succeeds :
      (t : List (List ℕ)) (v : List ObisValue)
      → exchange wire rlp peer id battery [] ≡ (t, ok v)
      → Succeeds wire rlp peer id battery t v
  unfolding exchange obis_codes write_parameters
  exchange-Succeeds t v h0 =
      let (bound, h1) = after_check t v peer.binds io_error _ [] h0 in
      let (connected, h2) = after_check t v peer.connects io_error _ [] h1 in
      let (m0, made0, taken0, h3) = after_send t v wire rlp peer 0 _ _ [] h2 in
      let p0 = codec_encode wire rlp m0 in
      let (r0, got0, h4) = after_lift t v _ _ (p0 ∷ []) h3 in
      let (u0, right0, h5) = after_lift t v _ _ (p0 ∷ []) h4 in
      let (m1, made1, taken1, h6) = after_send t v wire rlp peer 1 _ _ (p0 ∷ []) h5 in
      let p1 = codec_encode wire rlp m1 in
      let (r1, got1, h7) = after_lift t v _ _ (p0 ∷ p1 ∷ []) h6 in
      let (vs, right1, h8) = after_lift t v _ _ (p0 ∷ p1 ∷ []) h7 in
      let (m2, made2, taken2, h9) = after_send t v wire rlp peer 2 _ _ (p0 ∷ p1 ∷ []) h8 in
      let p2 = codec_encode wire rlp m2 in
      let (r2, got2, h10) = after_lift t v _ _ (p0 ∷ p1 ∷ p2 ∷ []) h9 in
      let (u2, right2, h11) = after_lift t v _ _ (p0 ∷ p1 ∷ p2 ∷ []) h10 in
      let (m3, made3, taken3, h12) = after_send t v wire rlp peer 3 _ _ (p0 ∷ p1 ∷ p2 ∷ []) h11 in
      let (response0, answer0) = handshake_answer r0 r0.payload refl right0 in
      let (response2, answer2) = write_answer r2 r2.payload refl right2 in
      let (packets, value) = ended _ t vs v h12 in
      record {
        bound = bound;
        connected = connected;
        handshake = m0;
        made0 = made0;
        taken0 = taken0;
        reply0 = r0;
        got0 = got0;
        response0 = response0;
        right0 = answer0;
        read = m1;
        made1 = made1;
        taken1 = taken1;
        reply1 = r1;
        got1 = got1;
        right1 = read_answer r1 r1.payload v refl (right1 ∙ ap ok value);
        write = m2;
        made2 = made2;
        taken2 = taken2;
        reply2 = r2;
        got2 = got2;
        response2 = response2;
        right2 = answer2;
        ack = m3;
        made3 = made3;
        taken3 = taken3;
        packets = packets;
      }
