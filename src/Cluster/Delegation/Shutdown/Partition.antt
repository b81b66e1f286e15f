-- ===== src/Cluster/Delegation/Shutdown/Partition.antt =====
-- Which node is asked to take which devices at a shutdown (src/cluster/delegation.rs).
use head_end_system_tpp.Prelude.{
  ℕ, zero, suc, ◌+◌, ◌/◌, ◌%◌, ◌^◌, ◌≤◌, ◌<◌, ◌≡◌, refl, ap, arith, true, some, List, [], ◌∷◌, map,
  length, get_elem?, drop, All,
}
use head_end_system_tpp.Wire.{Bytes}
use head_end_system_tpp.Cluster.Address.{SocketAddr, AddrText}
use head_end_system_tpp.Cluster.Node.{NodeInfo, Float32}
use head_end_system_tpp.Cluster.Membership as M
use head_end_system_tpp.Cluster.Protocol.{DelegationReason, DelegatedDevicePayload}
use head_end_system_tpp.Cluster.Server.{World}
use head_end_system_tpp.DeviceManager.Delegate.{DelegatedDevice}
use head_end_system_tpp.DeviceManager.Rebalance.{div_ceil}
use head_end_system_tpp.Cluster.Delegation.{
  Node, Handled, ok, request_delegation, request_to, target_of, sending, device_ids, to_payload,
}
use head_end_system_tpp.Cluster.Protocol.Message
use head_end_system_tpp.Cluster.Protocol.Codec.{encode}
use head_end_system_tpp.Cluster.Delegation.Shutdown.{
  chunks, request_each, distribute, after_request,
}
use native.Mathlib.Nat.{mod-eq_of_lt}
use head_end_system_tpp.Cluster.Delegation.Shutdown.Chunks.{concat, AreChunks, chunks_partition}

drop_found :
    {A : Type 0} (xs : List A) (i : ℕ)
    → i < length xs
    → (x : A) × (get_elem? xs i ≡ some x) × (drop i xs ≡ x ∷ drop (suc i) xs)
drop_found [] i h = absurd (omega arith)
drop_found (x ∷ xs) zero h = (x, refl, refl)
drop_found (x ∷ xs) (suc i) h = drop_found xs i (omega arith)

drop-All :
    {A : Type 0} (P : A → Type 0) (xs : List A) (i : ℕ) (x : A)
    → All P xs
    → get_elem? xs i ≡ some x
    → P x
drop-All P [] i x p h = absurd (cc)
drop-All P (y ∷ xs) zero x p h = ground (arith, h, p.0)
drop-All P (y ∷ xs) (suc i) x p h = drop-All P xs i x p.1 h

module _ (bytes : Bytes) (text : AddrText) (f : Float32) (w : World) where
  -- Every node of the list is found in the membership list at its address.
  abbrev pub AreKnown : List (NodeInfo f.F) → Node f.F → Type 0
  AreKnown targets node =
      All (λ (t : NodeInfo f.F). M.get_node t.node_id node.membership ≡ some t) targets

  abbrev pub Sends : Type 0
  Sends = (target : SocketAddr) (packet : List ℕ) → w.takes target packet ≡ true

  abbrev pub payload_of : DelegatedDevice → DelegatedDevicePayload
  payload_of d = record {
    device_id = d.device_id;
    ipv4 = d.ipv4;
    ipv6 = d.ipv6;
    schedule_time = d.schedule_time / 1000000000;
  }

  -- The datagram that asks a node to take some devices.
  abbrev pub request : ℕ → ℕ → NodeInfo f.F → List DelegatedDevice → SocketAddr × List ℕ
  request own seq t c = (
    t.cluster_addr,
    encode bytes text (
        Message.delegate_request (some (w.now / 1000000)) own seq
          (record { devices = map payload_of c; reason = DelegationReason.shutdown })),
  )

  -- One request for each chunk, to the nodes in turn, numbered from the one behind `seq` on.
  abbrev pub requests :
      ℕ → ℕ → List (NodeInfo f.F) → List (List DelegatedDevice) → List (SocketAddr × List ℕ)
  requests own seq (t ∷ ts) (c ∷ cs) =
      request own ((seq + 1) % 2 ^ 32) t c ∷ requests own ((seq + 1) % 2 ^ 32) ts cs
  requests own seq ts cs = []

  -- A request for some devices to a known node sends one datagram to it, and changes only the
  -- counter of the sequence numbers.
  request_lem :
      (c : List DelegatedDevice) (t : NodeInfo f.F) (node : Node f.F)
      → 0 < length c
      → Sends
      → M.get_node t.node_id node.membership ≡ some t
      → request_delegation bytes text f w c DelegationReason.shutdown (some t.node_id) node ≡ (
        record node { membership = (M.next_seq node.membership).0 },
        record {
          datagrams = request node.manager.local_node_id (M.next_seq node.membership).1 t c ∷ [];
          delegations = 0;
        },
        ok (device_ids bytes text f w c),
      )
  unfolding request_delegation request_to target_of sending to_payload
  request_lem [] t node some_devices sends found = absurd (omega arith)
  request_lem (d ∷ ds) t node some_devices sends found =
      rw (found, request_delegation, target_of, request_to, sends, sending) refl

  AreKnown-next_seq :
      (targets : List (NodeInfo f.F)) (node : Node f.F)
      → AreKnown targets node
      → AreKnown targets (record node { membership = (M.next_seq node.membership).0 })
  unfolding M.get_node M.next_seq
  AreKnown-next_seq targets node known = known

  -- The loop over the chunks asks the nodes in turn, each for one chunk.
  abbrev pub AreAsked :
      List (NodeInfo f.F) → List (List DelegatedDevice) → Node f.F → Handled f.F (Unit {0}) → Type 0
  AreAsked targets cs node (node', log, result) =
      (result ≡ ok tt)
      × (log.datagrams ≡ requests node.manager.local_node_id node.membership.seq_counter targets cs)
      × (node'.manager ≡ node.manager)

  turn :
      (targets : List (NodeInfo f.F)) (i : ℕ) (t : NodeInfo f.F) (c : List DelegatedDevice)
      (cs : List (List DelegatedDevice)) (node : Node f.F)
      → i < length targets
      → get_elem? targets i ≡ some t
      → request_each bytes text f w targets i (c ∷ cs) node
        ≡ after_request bytes text f w
            (request_each bytes text f w targets (suc i) cs)
            (request_delegation bytes text f w c DelegationReason.shutdown (some t.node_id) node)
  unfolding request_each
  turn targets i t c cs node inside found =
      let place : i % length targets ≡ i = mod-eq_of_lt inside in
      rw (place, found, request_each) refl

  request_each_step :
      (targets : List (NodeInfo f.F)) (i : ℕ) (t : NodeInfo f.F) (c : List DelegatedDevice)
      (cs : List (List DelegatedDevice)) (node : Node f.F) (rest : List (NodeInfo f.F))
      → 0 < length c
      → Sends
      → i < length targets
      → get_elem? targets i ≡ some t
      → M.get_node t.node_id node.membership ≡ some t
      → AreAsked rest cs
          (record node { membership = (M.next_seq node.membership).0 })
          (request_each bytes text f w targets
            (suc i)
            cs
            (record node { membership = (M.next_seq node.membership).0 }))
      → AreAsked (t ∷ rest) (c ∷ cs) node (request_each bytes text f w targets i (c ∷ cs) node)
  unfolding after_request M.next_seq
  request_each_step targets i t c cs node rest some_devices sends inside found known
        (r, asked, same) =
      let own = node.manager.local_node_id in
      let seq = (node.membership.seq_counter + 1) % 2 ^ 32 in
      rw (turn targets i t c cs node inside found) (
        rw (request_lem c t node some_devices sends known)
          (r, ap (λ ds. request own seq t c ∷ ds) asked, same))

  request_each_lem :
      (targets : List (NodeInfo f.F)) (i k : ℕ) (cs : List (List DelegatedDevice)) (node : Node f.F)
      → i + length cs ≤ length targets
      → AreChunks k cs
      → Sends
      → AreKnown targets node
      → AreAsked (drop i targets) cs node (request_each bytes text f w targets i cs node)
  request_each_lem targets i k [] node fits chunked sends known =
      unfold request_each in (refl, none_asked (drop i targets), refl)
    where
      none_asked :
          (ts : List (NodeInfo f.F))
          → [] ≡ requests node.manager.local_node_id node.membership.seq_counter ts []
      none_asked [] = refl
      none_asked (t ∷ ts) = refl
  request_each_lem targets i k (c ∷ cs) node fits chunked sends known =
      let (t, found, rest) = drop_found targets i (omega arith) in
      rw rest (
        request_each_step targets i t c cs node (drop (suc i) targets) chunked.0.0 sends
          (omega arith) found (drop-All _ targets i t known found)
          (request_each_lem targets (suc i) k cs _ (omega arith) chunked.1 sends
            (AreKnown-next_seq targets node known)))

  pub distribute_lem :
      (devices : List DelegatedDevice) (targets : List (NodeInfo f.F)) (node : Node f.F)
      → 0 < length devices
      → 0 < length targets
      → Sends
      → AreKnown targets node
      → (cs : List (List DelegatedDevice)) × AreAsked targets cs node
          (distribute bytes text f w devices targets node)
        × AreChunks (div_ceil (length devices) (length targets)) cs
        × (concat cs ≡ devices)
        × (length cs ≤ length targets)
  unfolding distribute
  distribute_lem devices [] node some_devices some_nodes sends known = absurd (omega arith)
  distribute_lem devices (t ∷ ts) node some_devices some_nodes sends known =
      let k = div_ceil (length devices) (length (t ∷ ts)) in
      let cs = chunks (length devices) k devices in
      let (whole, chunked, few) =
        chunks_partition devices (length (t ∷ ts)) some_devices some_nodes in
      (
        cs,
        request_each_lem (t ∷ ts) 0 k cs node (omega arith) chunked sends known,
        chunked,
        whole,
        few,
      )
