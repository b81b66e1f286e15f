-- ===== src/Cluster/Node/Codes.antt =====
-- The wire codes and the database texts of a node's status (src/cluster/node.rs).
use head_end_system_tpp.Prelude.{ℕ, ◌<◌, ◌≡◌, ◌↔◌, refl, some, arith}
use head_end_system_tpp.Cluster.Node.{NodeStatus, starting}
use head_end_system_tpp.Cluster.Node.{
  status_code, status_from_code, status_as_str, status_from_str, is_status,
}
use head_end_system_tpp.Prelude.{true}
use Prim.Native.String.{String}
use text.Mathlib.TextEquality.{eq_iff}

pub status_from_code-status_code : (s : NodeStatus) → status_from_code (status_code s) ≡ some s
unfolding status_from_code status_code
status_from_code-status_code starting = refl
status_from_code-status_code s = refl

-- A byte is accepted exactly when it is the code of the status that it decodes to.
pub status_from_code_iff :
    (c : ℕ) (s : NodeStatus) → (status_from_code c ≡ some s) ↔ (c ≡ status_code s)
unfolding status_from_code status_code
status_from_code_iff c starting = (ground arith, ground arith)
status_from_code_iff c s = (ground arith, ground arith)

-- A text is accepted exactly when it is the text of the status that it is read as.
pub status_from_str_iff :
    (t : String) (s : NodeStatus) → (status_from_str t ≡ some s) ↔ (t ≡ status_as_str s)
unfolding status_from_str status_as_str
status_from_str_iff t starting = (
  ground (
    arith,
    eq_iff t "starting",
    eq_iff t "active",
    eq_iff t "draining",
    eq_iff t "suspect",
    eq_iff t "dead",
  ),
  λ e. rw e,
)
status_from_str_iff t s = (
  ground (
    arith,
    eq_iff t "starting",
    eq_iff t "active",
    eq_iff t "draining",
    eq_iff t "suspect",
    eq_iff t "dead",
  ),
  λ e. rw e,
)

pub is_status_iff : (s t : NodeStatus) → (is_status s t ≡ true) ↔ (s ≡ t)
unfolding is_status
is_status_iff s t = ground arith

pub status_code-lt : (s : NodeStatus) → status_code s < 256
unfolding status_code
status_code-lt starting = omega arith
status_code-lt s = omega arith
