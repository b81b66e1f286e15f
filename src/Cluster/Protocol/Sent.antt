-- ===== src/Cluster/Protocol/Sent.antt =====
-- The messages that the constructors of `ClusterMessage` build (src/cluster/protocol/message.rs),
-- as the receiver decodes them.
use head_end_system_tpp.Prelude.{ℕ, ◌^◌, ◌<◌, ◌≡◌, arith, List, [], Option, none, some, Bool}
use head_end_system_tpp.Wire.{ok, Bytes}
use head_end_system_tpp.Cluster.Address.{AddrText, IsText}
use head_end_system_tpp.Cluster.Protocol.{ClusterMessage, ClusterMessageType, ClusterPayload}
use head_end_system_tpp.Cluster.Protocol.Heartbeat.{IsUuid, IsHeartbeat}
use head_end_system_tpp.Cluster.Protocol.Join.{IsNodeJoin}
use head_end_system_tpp.Cluster.Protocol.Delegate.{IsDelegateRequest, IsDelegateAccept}
use head_end_system_tpp.Cluster.Protocol.Status.{IsStatusResponse}
use head_end_system_tpp.Cluster.Protocol.Config.{IsConfigUpdate, IsConfigUpdateAck}
use head_end_system_tpp.Cluster.Protocol.Message
use head_end_system_tpp.Cluster.Protocol.Message.{IsHeader}
use head_end_system_tpp.Cluster.Protocol.Codec.{decode, encode}
use head_end_system_tpp.Cluster.Protocol.RoundTrip.{IsPayload, decode-encode}

module _ (text : AddrText) (now : Option ℕ) (id seq : ℕ) where
  pub data Built : ClusterMessage → Type 0 where
    heartbeat : (p : _) → IsHeartbeat p → Built (Message.heartbeat now id seq p)
    heartbeat_ack : Built (Message.heartbeat_ack now id seq)
    node_join : (p : _) → IsNodeJoin text p → Built (Message.node_join now id seq p)
    node_leave : Built (Message.node_leave now id seq)
    node_suspect : (n : ℕ) → IsUuid n → Built (Message.node_suspect now id seq n)
    node_dead : (n : ℕ) → IsUuid n → Built (Message.node_dead now id seq n)
    delegate_request : (p : _) → IsDelegateRequest p → Built (Message.delegate_request now id seq p)
    delegate_accept : (p : _) → IsDelegateAccept p → Built (Message.delegate_accept now id seq p)
    delegate_reject : (r : List ℕ) → IsText r → Built (Message.delegate_reject now id seq r)
    status_request : Built (Message.status_request now id seq)
    status_response :
        (p : _) → IsStatusResponse text p → Built (Message.status_response now id seq p)
    probe_request : (n : ℕ) → IsUuid n → Built (Message.probe_request now id seq n)
    config_update : (p : _) → IsConfigUpdate p → Built (Message.config_update now id seq p)
    config_update_ack :
        (p : _) → IsConfigUpdateAck p → Built (Message.config_update_ack now id seq p)
    probe_response :
        (n : ℕ) (alive : Bool) → IsUuid n → Built (Message.probe_response now id seq n alive)

  new-IsHeader :
      IsUuid id
      → seq < 2 ^ 32
      → (t : ClusterMessageType) (p : ClusterPayload) → IsHeader (Message.new now id seq t p)
  unfolding Message.new
  new-IsHeader i s t p = record {
    version_u8 = omega arith;
    node_u128 = i;
    seq_u32 = s;
    timestamp_u64 = stamp now;
  }
    where
      stamp : (o : Option ℕ) → (Message.new o id seq t p).timestamp < 2 ^ 64
      stamp none = omega arith
      stamp (some ms) = omega arith

-- The line names every constructor of a message.
sent : Unit {0}
unfolding Message.new Message.heartbeat Message.heartbeat_ack Message.node_join Message.node_leave
    Message.node_suspect Message.node_dead Message.delegate_request Message.delegate_accept
    Message.delegate_reject Message.status_request Message.status_response Message.probe_request
    Message.config_update Message.config_update_ack Message.probe_response
sent = tt

module _ (bytes : Bytes) (text : AddrText) (now : Option ℕ) (id seq : ℕ) where
  new-decodes :
      (t : ClusterMessageType) (p : ClusterPayload)
      → IsUuid id
      → seq < 2 ^ 32
      → IsPayload text t p
      → decode bytes text (encode bytes text (Message.new now id seq t p))
        ≡ ok (some (Message.new now id seq t p)) []
  unfolding Message.new
  new-decodes t p i s w =
      decode-encode bytes text (Message.new now id seq t p) (new-IsHeader text now id seq i s t p) w

  -- Every message that a constructor builds, from a sender id, a sequence number and a payload in
  -- the ranges of their types, is decoded by its receiver as that message, with no byte left over.
  pub decode-encode_built :
      {m : ClusterMessage}
      → Built text now id seq m
      → IsUuid id
      → seq < 2 ^ 32
      → decode bytes text (encode bytes text m) ≡ ok (some m) []
  unfolding sent
  decode-encode_built (Built.heartbeat p w) i s = new-decodes _ _ i s w
  decode-encode_built Built.heartbeat_ack i s = new-decodes _ _ i s tt
  decode-encode_built (Built.node_join p w) i s = new-decodes _ _ i s w
  decode-encode_built Built.node_leave i s = new-decodes _ _ i s tt
  decode-encode_built (Built.node_suspect n w) i s = new-decodes _ _ i s w
  decode-encode_built (Built.node_dead n w) i s = new-decodes _ _ i s w
  decode-encode_built (Built.delegate_request p w) i s = new-decodes _ _ i s w
  decode-encode_built (Built.delegate_accept p w) i s = new-decodes _ _ i s w
  decode-encode_built (Built.delegate_reject r w) i s = new-decodes _ _ i s w
  decode-encode_built Built.status_request i s = new-decodes _ _ i s tt
  decode-encode_built (Built.status_response p w) i s = new-decodes _ _ i s w
  decode-encode_built (Built.probe_request n w) i s = new-decodes _ _ i s w
  decode-encode_built (Built.config_update p w) i s = new-decodes _ _ i s w
  decode-encode_built (Built.config_update_ack p w) i s = new-decodes _ _ i s w
  decode-encode_built (Built.probe_response n alive w) i s = new-decodes _ _ i s w
