-- ===== src/Node/Progress.antt =====
-- The loops of a node at the end of the chain work off what waits (src/server_main.cpp,
-- `relay_write_background` and `relay_write_ack_background`).
pub mod Stored
pub mod Committed
use chained_block_storage.Base.{
  ℕ, zero, suc, ◌+◌, ◌-◌, ◌^◌, ◌≤◌, ◌<◌, ◌≡◌, ◌≢◌, refl, ap, sym, subst, ◌∙◌, Bool, true, false,
  Option, some, inl, inr, List, [], ◌∷◌, ◌++◌, length, All, arith, ◌==◌, Bool-cases,
}
use chained_block_storage.Protocol.{Status}
use chained_block_storage.Tables.Request.{ok}
use chained_block_storage.Tables.Int.{ℤ, pos, to_int, to_int_small}
use chained_block_storage.Tables.PendingQueue
use chained_block_storage.Tables.SentList
use chained_block_storage.Tables.SentList.{SentEntry, SentList}
use chained_block_storage.Tables.SentList.Laws.{
  lookup, Pushed, Popped, push_entry-lookup, pop_entry-lookup,
}
use chained_block_storage.Tables.ReplayLog.{commit_log_entry}
use chained_block_storage.Node.{Storage, Node, looking, relaying, storing, is_end}
use chained_block_storage.Node.Handlers.{commit_sent}
use chained_block_storage.Node.Background.{
  relay_step_at, relay_write_step, relay_write_ack_step, store, take_next,
}
use chained_block_storage.Node.Steps.{
  Event, relay_round, ack_round, perform, run, Sound, Op, committed,
}
use chained_block_storage.Node.Order.{not_there}
use chained_block_storage.Node.Interleaving.{ack_call, run-Advanced}

-- The entries have the numbers after `w`, in order and without a gap.
abbrev pub Numbered : ℕ → List PendingQueue.Entry → Type 0
Numbered w [] = Unit
Numbered w (e ∷ es) = (e.seq_num ≡ w + 1) × Numbered (w + 1) es

-- The numbers after `c` and up to `w` are in the sent list.
abbrev pub Filled : ℕ → ℕ → SentList → Type 0
Filled c w sent = (j : ℕ) → c < j → j ≤ w → (e : SentEntry) × (lookup (pos j) sent ≡ some e)

-- A node at the end of the chain whose relay looks at a queue of `es`.
pub record Ready {V : Type 0} (n : Node V) (c : ℕ) (es : List PendingQueue.Entry) : Type 0 where
  pub sound : Sound n c
  pub at_end : is_end n.state ≡ true
  pub at_queue : n.relay ≡ looking
  pub waits : n.pending.queue ≡ es
  pub numbered : Numbered n.write_seq es
  pub filled : Filled c n.write_seq n.sent

-- What the sent list keeps of an entry that is stored.
abbrev pub sent_of : PendingQueue.Entry → SentEntry
sent_of e = record { req_id = e.req_id; volume_offset = e.volume_offset }

-- The entries are in the sent list.
abbrev pub Listed : List PendingQueue.Entry → SentList → Type 0
Listed [] sent = Unit
Listed (e ∷ es) sent = (lookup (pos e.seq_num) sent ≡ some (sent_of e)) × Listed es sent

abbrev pub commit_of : PendingQueue.Entry → Op
commit_of e = committed (pos e.seq_num) e.volume_offset

-- The lists agree on the numbers from `c` on.
abbrev pub SameFrom : ℕ → SentList → SentList → Type 0
SameFrom c sent sent' = (j : ℕ) → c ≤ j → lookup (pos j) sent' ≡ lookup (pos j) sent

-- The lists agree on the numbers up to `w`.
abbrev pub SameUpTo : ℕ → SentList → SentList → Type 0
SameUpTo w sent sent' = (j : ℕ) → j ≤ w → lookup (pos j) sent' ≡ lookup (pos j) sent

pub Listed-SameFrom :
    (es : List PendingQueue.Entry) (c w : ℕ) (sent sent' : SentList)
    → Numbered w es
    → c ≤ w + 1
    → SameFrom c sent sent'
    → Listed es sent
    → Listed es sent'
Listed-SameFrom [] c w sent sent' num a same l = tt
Listed-SameFrom (e ∷ es) c w sent sent' num a same l = (
  same e.seq_num (omega (arith, num.0, a)) ∙ l.0,
  Listed-SameFrom es c (w + 1) sent sent' num.1 (omega (arith, a)) same l.1,
)

-- Three rounds for each entry.
abbrev pub relay_rounds : Status → List PendingQueue.Entry → List Event
relay_rounds answer [] = []
relay_rounds answer (e ∷ es) =
    relay_round answer ∷ relay_round answer ∷ relay_round answer ∷ relay_rounds answer es

abbrev pub entry_rounds : Status → List Event
entry_rounds answer = relay_round answer ∷ relay_round answer ∷ relay_round answer ∷ []

abbrev pub ack_rounds : ℕ → List Event
ack_rounds zero = []
ack_rounds (suc k) = ack_round ∷ ack_rounds k

module _ {V : Type 0} where
  pub Sound-at :
      (n n' : Node V) (c k : ℕ)
      → n' ≡ n
      → n'.commit_seq ≡ pos k
      → n.commit_seq ≡ pos c
      → Sound n' k
      → Sound n c
  Sound-at n n' c k e h g s =
      let same : k ≡ c = ground (arith, sym h ∙ ap (λ (m : Node V). m.commit_seq) e ∙ g) in
      subst (Sound n) same (subst (λ m. Sound m k) e s)
