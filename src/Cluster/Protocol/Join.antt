-- ===== src/Cluster/Protocol/Join.antt =====
-- NODE_JOIN payloads (`NodeJoinPayload` of src/cluster/protocol/payload.rs).
use head_end_system_tpp.Prelude.{ℕ, ◌^◌, ◌<◌, ◌≡◌, refl, arith, List}
use head_end_system_tpp.Wire.{ok, Decoder, ◌>>=◌, ◌>>◌, return, ensure, ok_or, Encoder}
use head_end_system_tpp.Wire.{Bytes, write, read}
use head_end_system_tpp.Wire.RoundTrip.{bind_ok, ensure_ok, ok_or_ok, read-write, length-write}
use head_end_system_tpp.Wire.Safety.{SafeFrom, return_safe, ensure_safe, ok_or_safe, read_safe}
use head_end_system_tpp.Cluster.Address.{AddrText, IsText, IsPrintable}
use head_end_system_tpp.Cluster.Protocol.{
  ClusterCodecError, invalid_length, invalid_payload, no_address,
}
use head_end_system_tpp.Cluster.Protocol.{NodeJoinPayload}
use head_end_system_tpp.Cluster.Protocol.Text.{
  put_string, get_text, length-put_string, read-put_string,
}
use head_end_system_tpp.Cluster.Protocol.Text.{get_text-append, get_text_safe}

pub record IsNodeJoin (text : AddrText) (p : NodeJoinPayload) : Type 0 where
  pub name : IsText p.node_name
  pub address : IsPrintable text p.cluster_addr
  pub port : p.backdoor_port < 2 ^ 16

module _ (bytes : Bytes) (text : AddrText) where
  unfoldable pub encode_node_join : NodeJoinPayload → Encoder
  encode_node_join p rest =
      put_string bytes p.node_name
        (put_string bytes (text.to_string p.cluster_addr) (write bytes 2 p.backdoor_port rest))

  unfoldable pub decode_node_join : Decoder ClusterCodecError NodeJoinPayload
  decode_node_join = do
    ensure 6 invalid_length
    name_len ← read bytes 2
    node_name ← get_text bytes name_len
    ensure 4 invalid_length
    addr_len ← read bytes 2
    addr_str ← get_text bytes addr_len
    cluster_addr ← ok_or (text.parse addr_str) (invalid_payload no_address)
    ensure 2 invalid_length
    backdoor_port ← read bytes 2
    return (record {
      node_name = node_name;
      cluster_addr = cluster_addr;
      backdoor_port = backdoor_port;
    })

  pub decode_node_join-encode :
      (p : NodeJoinPayload) (rest : List ℕ)
      → IsNodeJoin text p
      → decode_node_join (encode_node_join p rest) ≡ ok p rest
  unfolding decode_node_join encode_node_join
  decode_node_join-encode p rest w =
      let addr = text.to_string p.cluster_addr in
      bind_ok _ _
        (ensure_ok _ _ _ (simp (length-put_string bytes, length-write bytes) (omega arith)))
        (bind_ok _ _ (read-put_string bytes p.node_name _ w.name) (
          bind_ok _ _ (get_text-append bytes p.node_name _ w.name) (
            bind_ok _ _
              (ensure_ok _ _ _ (simp (length-put_string bytes, length-write bytes) (omega arith)))
              (bind_ok _ _ (read-put_string bytes addr _ w.address.printed) (
                bind_ok _ _ (get_text-append bytes addr _ w.address.printed) (
                  bind_ok _ _ (ok_or_ok _ _ w.address.parses) (
                    bind_ok _ _ (ensure_ok _ _ _ (simp (length-write bytes) (omega arith)))
                      (bind_ok _ _ (read-write bytes 2 _ _ w.port) refl))))))))

  pub decode_node_join_safe : SafeFrom 0 decode_node_join
  unfolding decode_node_join
  decode_node_join_safe = ensure_safe 6 _ _ (
      read_safe bytes 2 _ (omega arith) λ name_len. get_text_safe bytes name_len _ λ node_name.
        ensure_safe 4 _ _ (
          read_safe bytes 2 _ (omega arith) λ addr_len. get_text_safe bytes addr_len _ λ addr_str.
            ok_or_safe _ _ _ λ cluster_addr.
              ensure_safe 2 _ _
                (read_safe bytes 2 _ (omega arith) λ backdoor_port. return_safe 0 _)))
