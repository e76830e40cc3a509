-- ===== src/Client.antt =====
-- The client library (src/client_api.cpp, src/headers/client_api.hpp). The addresses of the head and
-- the tail stand for the channels to them. A remote call ends with an answer or fails; after a
-- failure the client asks the master for the configuration, and that answer is a part of the round.
pub mod Retries
use chained_block_storage.Base.{
  ℕ, suc, ◌*◌, ltb, Bool, true, false, Option, none, some, List, [], ◌∷◌, ◌++◌, length, take,
  if◌then◌else◌,
}
use chained_block_storage.OrderedMap
use chained_block_storage.OrderedMap.{OrderedMap}
use chained_block_storage.Protocol.{ServerIp, Status, is_ok}
use chained_block_storage.Tables.Int.{ℤ, pos, negsuc}
use chained_block_storage.Tables.Request.{Timestamp, ClientRequestId, timestamp_order}
use chained_block_storage.Node.Handlers.{WriteRequest, c_string}

-- `PendingWriteEntry`, with the block in it.
pub record PendingWriteEntry : Type 0 where
  pub buff : List ℕ
  pub offset : ℕ

-- `Client`; `locked` is the state of `pending_write_mutex`.
pub record Client : Type 0 where
  pub client_ip : List ℕ
  pub client_pid : ℕ
  pub head : ServerIp
  pub tail : ServerIp
  pub pending_writes : OrderedMap Timestamp PendingWriteEntry
  pub locked : Bool

-- What `GetConfig` gives.
pub record ConfigAnswer : Type 0 where
  pub status : Status
  pub head_addr : ServerIp
  pub tail_addr : ServerIp

-- A round of a loop that repeats a call: its answer, or the configuration after a failure.
pub data CallRound (A : Type 0) : Type 0 where
  answers : A → CallRound A
  fails : ConfigAnswer → CallRound A

-- How a method ends: it returns, it throws `runtime_error`, it still waits, or it uses what is not there.
pub data Outcome (A : Type 0) : Type 0 where
  returns : A → Outcome A
  throws : Outcome A
  waits : Outcome A
  undefined : Outcome A

-- `refreshConfig`; `none` is the exception.
unfoldable pub refresh_config : Client → ConfigAnswer → Option Client
refresh_config c a =
    if is_ok a.status then some (record c { head = a.head_addr; tail = a.tail_addr }) else none

-- The constructor.
unfoldable pub connect : List ℕ → ℕ → ConfigAnswer → Option Client
connect client_ip pid a =
    if is_ok a.status
    then some (record {
      client_ip = client_ip;
      client_pid = pid;
      head = a.head_addr;
      tail = a.tail_addr;
      pending_writes = [];
      locked = false;
    })
    else none

-- The loop that `read`, `ackWrite` and `checksum` have in common.
unfoldable pub repeat_call : {A : Type 0} → Client → List (CallRound A) → Client × Outcome A
unfolding refresh_config
repeat_call c [] = (c, waits)
repeat_call c (answers x ∷ rounds) = (c, returns x)
repeat_call c (fails a ∷ rounds) = elim (refresh_config c a) [
  | none ↦ (c, throws)
  | some d ↦ repeat_call d rounds
]

-- `memcpy` of a block from the data of the reply.
unfoldable pub copy_reply : Outcome (List ℕ) → Outcome (List ℕ)
copy_reply (returns data_bytes) =
    if ltb (length data_bytes) 4096 then undefined else returns (take 4096 data_bytes)
copy_reply throws = throws
copy_reply waits = waits
copy_reply undefined = undefined

unfoldable pub read : Client → List (CallRound (List ℕ)) → Client × Outcome (List ℕ)
unfolding repeat_call copy_reply
read c rounds = let (d, x) = repeat_call c rounds in (d, copy_reply x)

-- `ackWrite`, by the flag of the reply.
unfoldable pub ack_code : Outcome Bool → Outcome ℤ
ack_code (returns committed) = if committed then returns (pos 0) else returns (negsuc 0)
ack_code throws = throws
ack_code waits = waits
ack_code undefined = undefined

unfoldable pub ack_write : Client → List (CallRound Bool) → Client × Outcome ℤ
unfolding repeat_call ack_code
ack_write c rounds = let (d, x) = repeat_call c rounds in (d, ack_code x)

-- The reply of the head is given back as it is.
unfoldable pub checksum : {R : Type 0} → Client → List (CallRound R) → Client × Outcome R
unfolding repeat_call
checksum c rounds = repeat_call c rounds

-- `gettimeofday`, in seconds and microseconds, as a timestamp.
pub record Time : Type 0 where
  pub tv_sec : ℕ
  pub tv_usec : ℕ

unfoldable pub timestamp_of : Time → Timestamp
timestamp_of t = record { seconds = t.tv_sec; nanos = t.tv_usec * 1000 }

-- The block becomes the data of the request as a C string: it ends at the first zero byte, or where
-- there is none in the memory `beyond` the block.
unfoldable pub request_of : Client → List ℕ → PendingWriteEntry → Timestamp → WriteRequest
unfolding c_string
request_of c beyond e t = record {
  bytes = c_string (e.buff ++ beyond);
  offset = e.offset;
  req_id = record { ip = c.client_ip; pid = c.client_pid; timestamp = t };
}

unfoldable pub add_pending : Client → Timestamp → PendingWriteEntry → Client
unfolding OrderedMap.insert
add_pending c t e = record c {
  pending_writes = OrderedMap.insert timestamp_order t e c.pending_writes;
}

-- The loop of `write`, with the lock: the requests that it sends, the client and how it ends. Each
-- round reads the clock.
unfoldable pub write_rounds :
    Client
    → List ℕ
    → PendingWriteEntry
    → List (Time × CallRound Unit)
    → List WriteRequest × Client × Outcome Timestamp
unfolding request_of add_pending timestamp_of refresh_config
write_rounds c beyond e [] = ([], c, waits)
write_rounds c beyond e ((t, answers _) ∷ rounds) =
    let stamp = timestamp_of t in
    (
      request_of c beyond e stamp ∷ [],
      record (add_pending c stamp e) { locked = false },
      returns stamp,
    )
write_rounds c beyond e ((t, fails a) ∷ rounds) =
    let sent = request_of c beyond e (timestamp_of t) in
    elim (refresh_config c a) [
      | none ↦ (sent ∷ [], c, throws)
      | some d ↦ let (requests, f, x) = write_rounds d beyond e rounds in (sent ∷ requests, f, x)
    ]

unfoldable pub write :
    Client
    → List ℕ
    → PendingWriteEntry
    → List (Time × CallRound Unit)
    → List WriteRequest × Client × Outcome Timestamp
unfolding write_rounds
write c beyond e rounds =
    if c.locked then ([], c, waits) else write_rounds (record c { locked = true }) beyond e rounds

-- `popPendingWrite` and `peekPendingWrite`. The first entry of an empty map is not there.
unfoldable pub pop_pending_write : Client → Client × Outcome (Timestamp × PendingWriteEntry)
pop_pending_write c =
    let first : Client × Outcome (Timestamp × PendingWriteEntry) = elim c.pending_writes [
      | [] ↦ (c, undefined)
      | top ∷ rest ↦ (record c { pending_writes = rest }, returns top)
    ] in
    if c.locked then (c, waits) else first

unfoldable pub peek_pending_write : Client → Client × Outcome (Timestamp × PendingWriteEntry)
peek_pending_write c =
    let first : Client × Outcome (Timestamp × PendingWriteEntry) = elim c.pending_writes [
      | [] ↦ (c, undefined)
      | top ∷ rest ↦ (c, returns top)
    ] in
    if c.locked then (c, waits) else first

-- The loop of `retryTopPendingWrite`, which takes no lock.
unfoldable pub retry_rounds :
    Client
    → List ℕ
    → Timestamp
    → PendingWriteEntry
    → List (CallRound Unit)
    → List WriteRequest × Client × Outcome Timestamp
unfolding request_of refresh_config
retry_rounds c beyond t e [] = ([], c, waits)
retry_rounds c beyond t e (answers _ ∷ rounds) = (request_of c beyond e t ∷ [], c, returns t)
retry_rounds c beyond t e (fails a ∷ rounds) = elim (refresh_config c a) [
  | none ↦ (request_of c beyond e t ∷ [], c, throws)
  | some d ↦
      let (requests, f, x) = retry_rounds d beyond t e rounds in
      (request_of c beyond e t ∷ requests, f, x)
]

unfoldable pub retry_top_pending_write :
    Client → List ℕ → List (CallRound Unit) → List WriteRequest × Client × Outcome Timestamp
unfolding retry_rounds
retry_top_pending_write c beyond rounds = elim c.pending_writes [
  | [] ↦ ([], c, undefined)
  | (t, e) ∷ rest ↦ retry_rounds c beyond t e rounds
]
