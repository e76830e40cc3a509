-- ===== src/Master/Nodes.antt =====
-- The state of the master: nodes stand on a heap under their pointers, which are numbers.
use chained_block_storage.Base.{
  ℕ, Bool, false, Option, none, some, List, [], ◌∷◌, ◌==◌, if◌then◌else◌,
}
use chained_block_storage.Tables.Int.{ℤ}
use chained_block_storage.Protocol.{State, ServerIp}

-- `master::Node`, less its stub: a call through the stub is a call at the pointer.
pub record Node : Type 0 where
  pub ip : List ℕ
  pub port : ℤ
  pub state : State

-- `head` and `tail` are null at the start. `reg_locked` is `reg_mtx`; `next_node` is the pointer
-- that the next `new Node` gives.
pub record Master : Type 0 where
  pub node : ℕ → Node
  pub node_list : List ℕ
  pub head : Option ℕ
  pub tail : Option ℕ
  pub reg_locked : Bool
  pub next_node : ℕ

-- An assignment to `n->state`.
unfoldable pub set_state : (ℕ → Node) → ℕ → State → ℕ → Node
set_state node n s k = if n == k then record (node k) { state = s } else node k

abbrev pub address : (ℕ → Node) → ℕ → ServerIp
address node n = record { ip = (node n).ip; port = (node n).port }

-- `nodeList.remove(n)`.
unfoldable pub remove : ℕ → List ℕ → List ℕ
remove n [] = []
remove n (k ∷ ks) = let rest = remove n ks in if n == k then rest else k ∷ rest

-- The loop over `drop_list`.
unfoldable pub remove_all : List ℕ → List ℕ → List ℕ
remove_all [] ks = ks
remove_all (n ∷ ns) ks = remove_all ns (remove n ks)

-- Comparison of a pointer that may be null with a node.
unfoldable pub points_at : Option ℕ → ℕ → Bool
points_at none n = false
points_at (some k) n = k == n
