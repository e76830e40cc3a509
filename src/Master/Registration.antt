-- ===== src/Master/Registration.antt =====
-- How a server joins the chain, and what a client learns of it
-- (src/interfaceImpl/masterService/NodeListenerImpl.cpp and ClientListenerImpl.cpp). What the
-- remote calls answer is a list: each call in a loop takes the next answer.
pub mod States
pub mod Joining
pub mod Abort
use chained_block_storage.Base.{
  ℕ, suc, ◌+◌, ◌-◌, leb, ◌≡◌, Bool, true, false, not, Option, none, some, List, [], ◌∷◌, ◌++◌, ◌==◌,
  if◌then◌else◌,
}
use chained_block_storage.Tables.Int.{ℤ, pos, negsuc}
use chained_block_storage.Protocol.{
  State, head_state, tail_state, middle_state, single_state, initialize_state, ServerIp, Status, ok,
  unavailable, unimplemented, other_error, ChangeModeRequest,
}
use chained_block_storage.Master.Nodes.{Node, Master, set_state, address}

pub record RegisterRequest : Type 0 where
  pub server_ip : ServerIp
  pub last_seq_num : ℕ

-- How a loop of calls ends: one is answered, one fails for an unforeseen reason, or the loop is
-- still at it when the answers run out.
pub data Contact : Type 0 where
  reached failed retrying : Contact

-- Both loops of `Register`: calls until one is answered, or fails for an unforeseen reason.
unfoldable pub contact : List Status → Contact
contact [] = retrying
contact (ok ∷ rest) = reached
contact (unavailable ∷ rest) = contact rest
contact (unimplemented ∷ rest) = contact rest
contact (other_error ∷ rest) = failed

-- `registered` carries the call of `ChangeMode` at the old tail, if there is one, and the
-- `prev_addr` of the reply; `aborted` returns the failed status of a call; `waits` does not return.
pub data Outcome : Type 0 where
  registered : Master → Option (ℕ × ChangeModeRequest) → Option ServerIp → Outcome
  aborted : Master → Outcome
  waits : Outcome

-- Comparison of two pointers that may be null.
unfoldable pub same_pointer : Option ℕ → Option ℕ → Bool
same_pointer none none = true
same_pointer none (some k) = false
same_pointer (some n) none = false
same_pointer (some n) (some k) = n == k

unfoldable pub old_tail_state : Master → State
unfolding same_pointer
old_tail_state m = if same_pointer m.tail m.head then head_state else middle_state

-- The block under `nodeList_mtx`, where the list has been found empty or not.
enter : Master → ℕ → State → Master
enter m new old_state = elim m.node_list [
  | [] ↦ record m {
    node = set_state m.node new single_state;
    node_list = new ∷ [];
    head = some new;
    tail = some new;
  }
  | n ∷ ns ↦ record m {
    node =
        set_state (elim m.tail [ none ↦ m.node | some t ↦ set_state m.node t old_state ]) new
          tail_state;
    node_list = (n ∷ ns) ++ new ∷ [];
    tail = some new;
  }
]

-- `new Node` with the address of the request; its state is `INITIALIZE` at first.
pub new_node : Master → RegisterRequest → Master
new_node m request = record m {
  node = λ k.
      if m.next_node == k
      then record {
        ip = request.server_ip.ip;
        port = request.server_ip.port;
        state = initialize_state;
      }
      else m.node k;
  next_node = m.next_node + 1;
}

unlock : Master → Master
unlock m = record m { reg_locked = false }

pub mode_change : Master → ℕ → RegisterRequest → ChangeModeRequest
mode_change m new request = record {
  prev_addr = none;
  next_addr = some (address m.node new);
  new_state = old_tail_state m;
  last_seq_num = request.last_seq_num;
}

-- A chain that is not empty: the old tail is Told of its new state and of its successor.
join_tail : Master → ℕ → ℕ → RegisterRequest → Contact → Outcome
unfolding enter unlock mode_change old_tail_state
join_tail m new old request reached =
    registered (unlock (enter m new (old_tail_state m))) (some (old, mode_change m new request))
      (some (address m.node old))
join_tail m new old request failed = aborted m
join_tail m new old request retrying = waits

-- A null `tail` behind a list that is not empty would be a call through a null pointer.
integrate : Master → ℕ → RegisterRequest → List Status → Outcome
unfolding join_tail enter unlock contact
integrate m new request modes = elim m.node_list [
  | [] ↦ registered (unlock (enter m new (old_tail_state m))) none none
  | _ ∷ _ ↦ elim m.tail [ none ↦ waits | some old ↦ join_tail m new old request (contact modes) ]
]

reachable : Master → ℕ → RegisterRequest → Contact → List Status → Outcome
unfolding integrate
reachable m new request reached modes = integrate m new request modes
reachable m new request failed modes = aborted m
reachable m new request retrying modes = waits

-- `Register`. A call that is aborted returns without `reg_mtx.unlock()`.
unfoldable pub register : Master → RegisterRequest → List Status → List Status → Outcome
unfolding reachable new_node contact
register m request beats modes =
    if m.reg_locked
    then waits
    else reachable (record (new_node m request) { reg_locked = true }) m.next_node request
        (contact beats) modes

pub record GetConfigReply : Type 0 where
  pub head : Option ServerIp
  pub tail : Option ServerIp

localhost : List ℕ
localhost = b'l' ∷ b'o' ∷ b'c' ∷ b'a' ∷ b'l' ∷ b'h' ∷ b'o' ∷ b's' ∷ b't' ∷ []

unfoldable pub add_port : ℤ → ℕ → ℤ
add_port (pos p) n = pos (p + n)
add_port (negsuc p) n = if leb (p + 1) n then pos (n - (p + 1)) else negsuc (p - n)

-- `GetConfig`. Where there is no tail, the code writes to the head's field again.
unfoldable pub get_config : Master → GetConfigReply
unfolding localhost add_port
get_config m =
    let nowhere : ServerIp = record { ip = localhost; port = negsuc 0 } in
    let head_ip : ServerIp = elim m.head [
      | none ↦ nowhere
      | some n ↦ record { ip = (m.node n).ip; port = add_port (m.node n).port 1000 }
    ] in
    elim m.tail [
      | none ↦ record { head = some nowhere; tail = none }
      | some n ↦ record {
        head = some head_ip;
        tail = some (record { ip = (m.node n).ip; port = add_port (m.node n).port 2000 });
      }
    ]
