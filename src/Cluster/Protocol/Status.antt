-- ===== src/Cluster/Protocol/Status.antt =====
-- STATUS_RESPONSE payloads (`StatusResponsePayload` of src/cluster/protocol/payload.rs).
use head_end_system_tpp.Prelude.{
  ℕ, ◌+◌, ◌^◌, ◌<◌, ◌≡◌, refl, arith, List, [], length, All, true, false,
}
use head_end_system_tpp.Prelude.{leb, length-append, Bool-cases, inl, inr}
use head_end_system_tpp.Wire.{
  ok, Decoder, ◌>>=◌, ◌>>◌, return, ensure, ok_or, repeat, Encoder, each,
}
use head_end_system_tpp.Wire.{Bytes, write, read, copy, as_u16}
use head_end_system_tpp.Wire.RoundTrip.{
  bind_ok, ensure_ok, ok_or_ok, read-write, copy-append, length-write, repeat-each,
}
use head_end_system_tpp.Wire.Safety.{
  SafeFrom, return_safe, ensure_safe, ok_or_safe, read_safe, copy_safe, bind_safe, repeat_safe,
}
use head_end_system_tpp.Cluster.Address.{AddrText, IsText, IsPrintable}
use head_end_system_tpp.Cluster.Node.{status_code, status_from_code}
use head_end_system_tpp.Cluster.Node.Codes.{status_from_code-status_code, status_code-lt}
use head_end_system_tpp.Cluster.Protocol.{
  ClusterCodecError, invalid_length, invalid_payload, unknown_status, no_address,
}
use head_end_system_tpp.Cluster.Protocol.{KnownNodeInfo, StatusResponsePayload}
use head_end_system_tpp.Cluster.Protocol.Text.{
  put_string, get_text, from_utf8, from_utf8_ok, from_utf8_safe,
}
use head_end_system_tpp.Cluster.Protocol.Text.{
  read-put_string, get_text-append, get_text_safe, length-put_string,
}
use head_end_system_tpp.Cluster.Protocol.Heartbeat.{IsUuid}

pub record IsKnownNode (text : AddrText) (n : KnownNodeInfo) : Type 0 where
  pub id : IsUuid n.node_id
  pub name : IsText n.node_name
  pub address : IsPrintable text n.cluster_addr
  pub port : n.backdoor_port < 2 ^ 16

pub record IsStatusResponse (text : AddrText) (p : StatusResponsePayload) : Type 0 where
  pub name : IsText p.node_name
  pub buckets : p.bucket_count < 2 ^ 16
  pub devices : p.device_count < 2 ^ 32
  pub load : p.load_percent < 2 ^ 8
  pub target : p.max_device_suggested < 2 ^ 32
  pub port : p.backdoor_port < 2 ^ 16
  pub nodes : All (IsKnownNode text) p.known_nodes
  pub count : length p.known_nodes < 2 ^ 16

module _ (bytes : Bytes) (text : AddrText) where
  unfoldable pub encode_known_node : KnownNodeInfo → Encoder
  encode_known_node n rest = write bytes 16 n.node_id (
      put_string bytes n.node_name (
        put_string bytes (text.to_string n.cluster_addr)
          (write bytes 2 n.backdoor_port (write bytes 1 (status_code n.status) rest))))

  unfoldable pub decode_known_node : Decoder ClusterCodecError KnownNodeInfo
  decode_known_node = do
    ensure 18 invalid_length
    node_id ← read bytes 16
    nname_len ← read bytes 2
    node_name ← get_text bytes nname_len
    ensure 2 invalid_length
    addr_len ← read bytes 2
    addr_str ← get_text bytes addr_len
    cluster_addr ← ok_or (text.parse addr_str) (invalid_payload no_address)
    ensure 3 invalid_length
    backdoor_port ← read bytes 2
    status_byte ← read bytes 1
    status ← ok_or (status_from_code status_byte) (invalid_payload (unknown_status status_byte))
    return (record {
      node_id = node_id;
      node_name = node_name;
      cluster_addr = cluster_addr;
      backdoor_port = backdoor_port;
      status = status;
    })

  -- Backward compatible: no nodes if fewer than two bytes are left.
  unfoldable pub decode_known_nodes : Decoder ClusterCodecError (List KnownNodeInfo)
  decode_known_nodes buf = elim (leb 2 (length buf)) [
    | true ↦ (do count ← read bytes 2; repeat count decode_known_node) buf
    | false ↦ ok [] buf
  ]

  unfoldable pub encode_status_response : StatusResponsePayload → Encoder
  encode_status_response p rest = put_string bytes p.node_name (
      write bytes 1 (status_code p.status) (
        write bytes 2 p.bucket_count (
          write bytes 4 p.device_count (
            write bytes 1 p.load_percent (
              write bytes 4 p.max_device_suggested (
                write bytes 2 p.backdoor_port (
                  write bytes 2 (as_u16 (length p.known_nodes))
                    (each encode_known_node p.known_nodes rest))))))))

  unfoldable pub decode_status_response : Decoder ClusterCodecError StatusResponsePayload
  decode_status_response = do
    ensure 16 invalid_length
    name_len ← read bytes 2
    ensure (name_len + 14) invalid_length
    name_bytes ← copy bytes name_len
    node_name ← from_utf8 name_bytes
    status_byte ← read bytes 1
    status ← ok_or (status_from_code status_byte) (invalid_payload (unknown_status status_byte))
    bucket_count ← read bytes 2
    device_count ← read bytes 4
    load_percent ← read bytes 1
    max_device_suggested ← read bytes 4
    backdoor_port ← read bytes 2
    known_nodes ← decode_known_nodes
    return (record {
      node_name = node_name;
      status = status;
      bucket_count = bucket_count;
      device_count = device_count;
      load_percent = load_percent;
      max_device_suggested = max_device_suggested;
      backdoor_port = backdoor_port;
      known_nodes = known_nodes;
    })

  pub decode_known_node-encode :
      (n : KnownNodeInfo) (rest : List ℕ)
      → IsKnownNode text n
      → decode_known_node (encode_known_node n rest) ≡ ok n rest
  unfolding decode_known_node encode_known_node
  decode_known_node-encode n rest w =
      let addr = text.to_string n.cluster_addr in
      bind_ok _ _
        (ensure_ok _ _ _ (simp (length-put_string bytes, length-write bytes) (omega arith)))
        (bind_ok _ _ (read-write bytes 16 _ _ w.id) (
          bind_ok _ _ (read-put_string bytes n.node_name _ w.name) (
            bind_ok _ _ (get_text-append bytes n.node_name _ w.name) (
              bind_ok _ _
                (ensure_ok _ _ _ (simp (length-put_string bytes, length-write bytes) (omega arith)))
                (bind_ok _ _ (read-put_string bytes addr _ w.address.printed) (
                  bind_ok _ _ (get_text-append bytes addr _ w.address.printed) (
                    bind_ok _ _ (ok_or_ok _ _ w.address.parses) (
                      bind_ok _ _ (ensure_ok _ _ _ (simp (length-write bytes) (omega arith))) (
                        bind_ok _ _ (read-write bytes 2 _ _ w.port) (
                          bind_ok _ _ (read-write bytes 1 _ _ (status_code-lt n.status)) (
                            bind_ok _ _ (ok_or_ok _ _ (status_from_code-status_code n.status))
                              refl)))))))))))

  known_nodes_back :
      (ns : List KnownNodeInfo) (rest : List ℕ)
      → All (IsKnownNode text) ns
      → length ns < 2 ^ 16
      → decode_known_nodes (write bytes 2 (length ns) (each encode_known_node ns rest)) ≡ ok ns rest
  unfolding decode_known_nodes
  known_nodes_back ns rest w count =
      let tail = each encode_known_node ns rest in
      let enough : leb 2 (length (write bytes 2 (length ns) tail)) ≡ true =
        rw (length-write bytes 2 (length ns) tail) (ground arith) in
      rw (enough, decode_known_nodes)
        (bind_ok _ _ (read-write bytes 2 (length ns) tail count)
          (repeat-each _ _ (IsKnownNode text) decode_known_node-encode ns rest w))

  pub decode_status_response-encode :
      (p : StatusResponsePayload) (rest : List ℕ)
      → IsStatusResponse text p
      → decode_status_response (encode_status_response p rest) ≡ ok p rest
  unfolding decode_status_response encode_status_response
  decode_status_response-encode p rest w =
      let count : as_u16 (length p.known_nodes) ≡ length p.known_nodes = omega (arith, w.count) in
      bind_ok _ _
        (ensure_ok _ _ _ (simp (length-put_string bytes, length-write bytes) (omega arith)))
        (bind_ok _ _ (read-put_string bytes p.node_name _ w.name) (
          bind_ok _ _ (ensure_ok _ _ _ (simp (length-append, length-write bytes) (omega arith))) (
            bind_ok _ _ (copy-append bytes p.node_name _) (
              bind_ok _ _ (from_utf8_ok p.node_name _ w.name) (
                bind_ok _ _ (read-write bytes 1 _ _ (status_code-lt p.status)) (
                  bind_ok _ _ (ok_or_ok _ _ (status_from_code-status_code p.status)) (
                    bind_ok _ _ (read-write bytes 2 _ _ w.buckets) (
                      bind_ok _ _ (read-write bytes 4 _ _ w.devices) (
                        bind_ok _ _ (read-write bytes 1 _ _ w.load) (
                          bind_ok _ _ (read-write bytes 4 _ _ w.target) (
                            bind_ok _ _ (read-write bytes 2 _ _ w.port) (
                              rw count (
                                bind_ok _ _ (known_nodes_back p.known_nodes rest w.nodes w.count)
                                  refl)))))))))))))

  decode_known_node_safe : SafeFrom 0 decode_known_node
  unfolding decode_known_node
  decode_known_node_safe = ensure_safe 18 _ _ (
      read_safe bytes 16 _ (omega arith) λ id. read_safe bytes 2 _ (omega arith) λ name_len.
        get_text_safe bytes name_len _ λ name. ensure_safe 2 _ _ (
          read_safe bytes 2 _ (omega arith) λ addr_len. get_text_safe bytes addr_len _ λ addr_str.
            ok_or_safe _ _ _ λ addr. ensure_safe 3 _ _ (
              read_safe bytes 2 _ (omega arith) λ port.
                read_safe bytes 1 _ (omega arith)
                  λ status_byte. ok_or_safe _ _ _ λ status. return_safe 0 _)))

  decode_known_nodes_safe : SafeFrom 0 decode_known_nodes
  unfolding decode_known_nodes
  decode_known_nodes_safe buf h = elim (Bool-cases (leb 2 (length buf))) [
    | inl more ↦
        rw (more, decode_known_nodes)
          (read_safe bytes {n = 2} 2 _ (omega arith)
            (λ count. repeat_safe count _ decode_known_node_safe) buf (ground arith))
    | inr over ↦ rw (over, decode_known_nodes) (λ p. cc)
  ]

  pub decode_status_response_safe : SafeFrom 0 decode_status_response
  unfolding decode_status_response
  decode_status_response_safe = ensure_safe 16 _ _ (
      read_safe bytes 2 _ (omega arith) λ name_len. ensure_safe (name_len + 14) _ _ (
        copy_safe bytes name_len _ (omega arith) λ name_bytes. from_utf8_safe _ _ λ name.
          read_safe bytes 1 _ (omega arith) λ status_byte. ok_or_safe _ _ _ λ status.
            read_safe bytes 2 _ (omega arith) λ buckets.
              read_safe bytes 4 _ (omega arith) λ devices. read_safe bytes 1 _ (omega arith) λ load.
                read_safe bytes 4 _ (omega arith) λ target.
                  read_safe bytes 2 _ (omega arith) λ port.
                    bind_safe _ _ _ (λ buf h. decode_known_nodes_safe buf (omega arith))
                      λ nodes. return_safe 0 _))
