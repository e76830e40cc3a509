-- ===== src/Tests/Node.antt =====
-- A server node (src/server_main.cpp, src/interfaceImpl/serverService) at fixed inputs.
use chained_block_storage.Base.{
  length, map, ℕ, ℕ_discrete, ◌+◌, ◌^◌, ◌<◌, ◌≡◌, ◌↔◌, refl, Bool, true, false, Option, none, some,
  List, [], ◌∷◌, ◌++◌, arith,
}
use chained_block_storage.OrderedMap
use chained_block_storage.UnorderedMap
use chained_block_storage.Protocol.{
  head_state, tail_state, middle_state, single_state, ServerIp, ok, is_ok, ChangeModeRequest,
}
use chained_block_storage.Tables.Request.{timestamp_lt, invalid_argument}
use chained_block_storage.Tables.Int.{pos, negsuc, to_int, ltb_ℤ}
use chained_block_storage.Tables.Identifier.{Text-discrete, identifier}
use chained_block_storage.Tables.PendingQueue
use chained_block_storage.Tables.SentList.{SentEntry}
use chained_block_storage.Tables.ReplayLog.{smaller_than_min, add_to_log, commit_log_entry}
use chained_block_storage.Tables.ReplayLog.Status.{IsValid}
use chained_block_storage.Node.{Storage, Node, Peer, looking, relaying, is_end}
use chained_block_storage.Node.Handlers.{
  WriteRequest, entry_of, write, relay_write_ack, replies, raises, waits,
}
use chained_block_storage.Node.Steps.{
  Event, client_write, upstream_write, relay_round, downstream_ack, changed, perform, run, Sound,
  Between,
}
use chained_block_storage.Node.Order.{Stepped}
use chained_block_storage.Node.Progress.{Numbered, relay_rounds, ack_rounds}
use chained_block_storage.Node.System.{
  request_of, set_node, Reached, client, local, relays, here, after,
}
use chained_block_storage.Node.System.Agreement.{reached-Stepped}
use chained_block_storage.Node.Promotion.{run-write}
use chained_block_storage.Node.Served.{Waiting, Serves, write_all-Committed}
use chained_block_storage.Tables.PendingQueue.Validity.{empty-IsValid}
use chained_block_storage.Node.Numbering.{write_all, Unnumbered, write-write_all}
use chained_block_storage.Node.Overflow.{relay_write_ack-relay_write_ack}
use chained_block_storage.Node.ChangeMode.{change_mode, same_state}
use chained_block_storage.Node.ChangeMode.Laws.{change_mode_after_all_received}
use chained_block_storage.Node.Checksum.{checksum_system, ask_chain, checksum_system-valid_iff}

-- A volume that only remembers which calls it had.
abbrev memory : Storage (List (ℕ × Bool))
memory = record {
  write = λ bytes offset s v. (s, false) ∷ v;
  commit = λ s offset v. (offset, true) ∷ v;
  read = λ offset v. b'x' ∷ [];
  read_sequence_number = λ s offset v. some (b'x' ∷ []);
  get_modified_offsets = λ s v. (4096, 1) ∷ [];
  get_sequence_number = λ v. 0;
}

abbrev safe : ℕ → Bool
safe offset = false

abbrev neighbour : ServerIp
neighbour = record { ip = b'h' ∷ []; port = pos 18001 }

abbrev peer : Peer
peer = record { addr = neighbour; has_stub = true }

abbrev fresh_node : Node (List (ℕ × Bool))
fresh_node = record {
  state = head_state;
  upstream = peer;
  downstream = peer;
  current_seq = 1;
  write_seq = 0;
  commit_seq = pos 0;
  pending = PendingQueue.empty;
  sent = [];
  log = [];
  volume = [];
  relay = looking;
  mode_locked = false;
}

abbrev request_at : ℕ → WriteRequest
request_at s = record {
  bytes = b'x' ∷ [];
  offset = 4096;
  req_id = record { ip = b'a' ∷ []; pid = 42; timestamp = record { seconds = s; nanos = 0 } };
}

fresh_node-Sound : Sound fresh_node 0
unfolding OrderedMap.find
fresh_node-Sound = record {
  commits = refl;
  behind = omega arith;
  ordered = tt;
  between = λ k e found. absurd (cc);
  in_hand = tt;
}

fresh_node-IsValid : IsValid fresh_node.log
fresh_node-IsValid = record { distinct = tt; sorted = tt }

-- A write comes in, is relayed, stored and committed.
abbrev one_write : List Event
one_write =
    client_write (request_at 10)
    ∷ relay_round ok
    ∷ relay_round ok
    ∷ relay_round ok
    ∷ downstream_ack 1
    ∷ []

one_write-run : (run memory safe one_write fresh_node).volume ≡ (4096, true) ∷ (1, false) ∷ []
unfolding run perform UnorderedMap.find PendingQueue.empty is_end is_ok OrderedMap.is_new
    OrderedMap.insert ltb_ℤ to_int
one_write-run = refl

write-write_all_example :
    Unnumbered
      (write_all (request_at 11 ∷ []) (write fresh_node (request_at 10)).0)
      (write (write_all (request_at 11 ∷ []) (write fresh_node (request_at 10)).0) (request_at 10))
unfolding write add_to_log UnorderedMap.find PendingQueue.empty
write-write_all_example =
    write-write_all fresh_node (request_at 10) (request_at 11 ∷ []) 1 fresh_node-IsValid refl

abbrev one_byte : ℕ → List ℕ
one_byte b = b ∷ []

-- The tail differs from the others.
checksum_system-valid_iff_example :
    ((checksum_system head_state
        (one_byte 1)
        (ask_chain ((middle_state, one_byte 1) ∷ (tail_state, one_byte 2) ∷ []))).valid
      ≡ true)
    ↔ (one_byte 1 ≡ one_byte 1)
checksum_system-valid_iff_example =
    checksum_system-valid_iff (one_byte 1) middle_state (one_byte 1) ((tail_state, one_byte 2) ∷ [])

abbrev sent_entry : SentEntry
sent_entry = record { req_id = (request_at 10).req_id; volume_offset = 4096 }

-- The next number to commit is 2^31, which the sent list has as an `int`.
abbrev far_node : Node (List (ℕ × Bool))
far_node = record fresh_node {
  commit_seq = pos 2147483647;
  sent = (negsuc 2147483647, sent_entry) ∷ [];
}

abbrev far_committed : Node (List (ℕ × Bool))
far_committed = record fresh_node { commit_seq = negsuc 2147483647; volume = (4096, true) ∷ [] }

relay_write_ack-relay_write_ack_example :
    relay_write_ack memory far_committed (2147483648 + 1) ≡ (far_committed, waits)
unfolding relay_write_ack commit_log_entry UnorderedMap.find ltb_ℤ to_int OrderedMap.find
    OrderedMap.erase
relay_write_ack-relay_write_ack_example =
    relay_write_ack-relay_write_ack memory far_node far_committed 2147483648 (omega arith)
      (omega arith) refl

-- Write 3 is stored, and waits for its commit.
abbrev middle_node : Node (List (ℕ × Bool))
middle_node = record fresh_node {
  state = middle_state;
  write_seq = 3;
  commit_seq = pos 2;
  sent = (pos 3, sent_entry) ∷ [];
}

one_sent-Between : Between 2 3 ((pos 3, sent_entry) ∷ [])
unfolding OrderedMap.find ltb_ℤ
one_sent-Between (pos k) e found = (k, refl, ground arith, ground arith)
one_sent-Between (negsuc k) e found = absurd (ground arith)

middle_node-Sound : Sound middle_node 2
middle_node-Sound = record {
  commits = refl;
  behind = omega arith;
  ordered = (tt, tt);
  between = one_sent-Between;
  in_hand = tt;
}

abbrev reconnect_request : ChangeModeRequest
reconnect_request = record {
  prev_addr = none;
  next_addr = some neighbour;
  new_state = middle_state;
  last_seq_num = 3;
}

change_mode_after_all_received_example :
    ((change_mode memory middle_node reconnect_request).2 ≡ raises invalid_argument)
    × ((later : ChangeModeRequest)
        → (change_mode memory (change_mode memory middle_node reconnect_request).0 later).2 ≡ waits)
unfolding same_state
change_mode_after_all_received_example =
    change_mode_after_all_received memory middle_node 2 reconnect_request neighbour
      (pos 3, sent_entry) [] middle_node-Sound (omega arith) refl refl refl refl refl

abbrev waiting_entry : PendingQueue.Entry
waiting_entry = entry_of (request_at 10) 1

abbrev single_node : Node (List (ℕ × Bool))
single_node = record fresh_node { state = single_state }

single_node-Waiting : Waiting single_node 0 []
unfolding is_end OrderedMap.find PendingQueue.empty
single_node-Waiting = record {
  ready = record {
    sound = record {
      commits = refl;
      behind = omega arith;
      ordered = tt;
      between = λ k e found. absurd (cc);
      in_hand = tt;
    };
    at_end = refl;
    at_queue = refl;
    waits = refl;
    numbered = tt;
    filled = λ j above below. absurd (omega (arith, above, below));
  };
  valid = empty-IsValid;
  next_number = refl;
}

abbrev two_requests : List WriteRequest
two_requests = request_at 10 ∷ request_at 11 ∷ []

write_all-Committed_example :
    let n = write_all two_requests single_node in
    let q = n.pending.queue in
    Numbered 0 q
    × (n.current_seq ≡ 0 + length q + 1)
    × Serves memory safe n [] (run memory safe (relay_rounds ok q ++ ack_rounds (length q)) n)
write_all-Committed_example =
    write_all-Committed memory safe two_requests single_node ok [] single_node-Waiting
      (λ offset. refl) (omega arith)

abbrev all_started : ℕ → Node (List (ℕ × Bool))
all_started i = fresh_node

-- A client writes to node 0, which takes the write and passes it on to node 1.
abbrev taken : ℕ → Node (List (ℕ × Bool))
taken = set_node all_started 0 (perform memory safe (client_write (request_at 10)) fresh_node)

abbrev in_hand : ℕ → Node (List (ℕ × Bool))
in_hand = set_node taken 0 (perform memory safe (relay_round ok) (taken 0))

abbrev passed_on : ℕ → Node (List (ℕ × Bool))
passed_on =
    set_node in_hand 1 (perform memory safe (upstream_write (request_of waiting_entry)) (in_hand 1))

in_hand-relay : (in_hand 0).relay ≡ relaying waiting_entry
unfolding perform UnorderedMap.find PendingQueue.empty OrderedMap.is_new OrderedMap.insert entry_of
in_hand-relay = refl

passed_on-Reached : Reached memory safe all_started passed_on
passed_on-Reached =
    after in_hand passed_on
      (after taken in_hand (after all_started taken here (client (request_at 10)))
        (local 0 (relay_round ok) tt))
      (relays 0 1 waiting_entry in_hand-relay)

passed_on-fits : (i : ℕ) → (passed_on i).write_seq + 1 < 2 ^ 31
unfolding perform
passed_on-fits i = ground arith

reached-Stepped_example :
    (given : ℕ → Option PendingQueue.Entry) × ((i : ℕ)
      → Stepped memory safe (λ e. given e.seq_num ≡ some e) (all_started i) 0 (passed_on i))
unfolding PendingQueue.empty
reached-Stepped_example =
    reached-Stepped memory safe all_started (λ i. 0) passed_on
      (λ i. record { sound = fresh_node-Sound; queue = refl; relay = refl }) passed_on-Reached
      passed_on-fits

-- A write comes from upstream and is stored, and the node becomes the head.
abbrev relayed_write : List Event
relayed_write =
    upstream_write (record { write = request_at 10; seq_num = 1 })
    ∷ relay_round ok
    ∷ relay_round ok
    ∷ relay_round ok
    ∷ changed head_state peer peer
    ∷ []

run-write_example :
    let (n, answer) = write (run memory safe relayed_write fresh_node) (request_at 11) in
    (answer ≡ replies (some 1)) × (run memory safe (map relay_round (ok ∷ ok ∷ [])) n ≡ n)
unfolding run perform UnorderedMap.find PendingQueue.empty is_end is_ok OrderedMap.is_new
    OrderedMap.insert ltb_ℤ to_int entry_of add_to_log smaller_than_min timestamp_lt
    UnorderedMap.put Text-discrete identifier ℕ_discrete
run-write_example =
    run-write memory safe relayed_write fresh_node (request_at 11) (ok ∷ ok ∷ [])
      (tt, (tt, (tt, (tt, (tt, tt))))) (omega arith) refl refl refl
