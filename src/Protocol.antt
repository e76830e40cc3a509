-- ===== src/Protocol.antt =====
-- What the master and the server nodes share: the states of a node (src/headers/server.h), the
-- messages between them (protos/master.proto and protos/server.proto), and how a call ends.
use chained_block_storage.Base.{ℕ, Bool, true, false, Option, List}
use chained_block_storage.Tables.Int.{ℤ}

pub data State : Type 0 where
  head_state tail_state middle_state single_state initialize_state transition_state : State

pub State-discrete : Discrete State
State-discrete = hlevel

-- `ServerIp`. A port is an `int32`.
pub record ServerIp : Type 0 where
  pub ip : List ℕ
  pub port : ℤ

-- The status of a remote call, as far as the program tells them apart.
pub data Status : Type 0 where
  ok unavailable unimplemented other_error : Status

unfoldable pub is_ok : Status → Bool
is_ok ok = true
is_ok unavailable = false
is_ok unimplemented = false
is_ok other_error = false

-- A message field that is absent is `none`.
pub record ChangeModeRequest : Type 0 where
  pub prev_addr : Option ServerIp
  pub next_addr : Option ServerIp
  pub new_state : State
  pub last_seq_num : ℕ

pub record ChangeModeReply : Type 0 where
  pub last_received_seq_num : ℕ
