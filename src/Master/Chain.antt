-- ===== src/Master/Chain.antt =====
-- The chain that the master's list describes: a single server, or a head, nodes in the middle and
-- a tail, each in its state.
pub mod Positions
pub mod Repair
pub mod Head
pub mod Tail
pub mod Probes
pub mod Middle
use chained_block_storage.Base.{
  ℕ, suc, ◌+◌, ◌≤◌, ◌≡◌, ◌⊎◌, Bool, true, false, not, Option, none, some, List, [], ◌∷◌, ◌==◌,
  if◌then◌else◌,
}
use chained_block_storage.Protocol.{State, head_state, tail_state, middle_state, single_state}
use chained_block_storage.Master.Nodes.{Node, Master}

unfoldable pub count : ℕ → List ℕ → ℕ
count n [] = 0
count n (k ∷ ks) = (if n == k then 1 else 0) + count n ks

abbrev pub is_nonempty : List ℕ → Bool
is_nonempty [] = false
is_nonempty (_ ∷ _) = true

abbrev pub first : List ℕ → Option ℕ
first [] = none
first (n ∷ _) = some n

unfoldable pub last : List ℕ → Option ℕ
last [] = none
last (n ∷ []) = some n
last (n ∷ k ∷ ks) = last (k ∷ ks)

-- The state of a node, by whether nodes stand before it and after it.
unfoldable pub role : Bool → Bool → State
role false false = single_state
role false true = head_state
role true false = tail_state
role true true = middle_state

-- Each node of a list is in its state, where `b` says if nodes stand before the list.
abbrev pub Follows : (ℕ → Node) → Bool → List ℕ → Type 0
Follows node b [] = Unit
Follows node b (n ∷ ns) = ((node n).state ≡ role b (is_nonempty ns)) × Follows node true ns

-- The chain is in order, no node stands in it twice, and `head` and `tail` point at its ends.
pub record IsChain (m : Master) : Type 0 where
  pub states : Follows m.node false m.node_list
  pub distinct : (n : ℕ) → count n m.node_list ≤ 1
  pub ends : (m.node_list ≡ []) ⊎ ((m.head ≡ first m.node_list) × (m.tail ≡ last m.node_list))
