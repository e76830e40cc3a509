-- ===== src/Node/Order.antt =====
-- The volume of a node sees writes and commits in order, whatever the interleaving.
pub mod Calls
use chained_block_storage.Base.{
  ℕ, ◌+◌, ◌^◌, ◌≤◌, ◌<◌, ◌≡◌, ◌≢◌, refl, ap, sym, subst, ◌∙◌, ◌⊎◌, inl, inr, Bool, Option, none,
  some, List, [], ◌∷◌, ◌++◌, All, ◌==◌, arith, Bool-cases, Option-cases,
}
use chained_block_storage.Tables.Request.{ok, throws, Exception, invalid_argument}
use chained_block_storage.Tables.Int.{ℤ, pos, negsuc, to_int, to_int_small}
use chained_block_storage.Tables.PendingQueue
use chained_block_storage.Tables.SentList
use chained_block_storage.Tables.SentList.{SentEntry, SentList}
use chained_block_storage.Tables.SentList.Laws.{
  IsOrdered, lookup, Pushed, Popped, push_entry-lookup, pop_entry-lookup,
}
use chained_block_storage.Tables.ReplayLog.{commit_log_entry}
use chained_block_storage.Node.{Storage, Node, Relay, looking, stopped}
use chained_block_storage.Node.Handlers.{
  WriteRequest, RelayWriteRequest, write, relay_write, commit_sent, enqueue,
}
use chained_block_storage.Node.Background.{store}
use chained_block_storage.Node.Entries.{AllWrote-append}
use chained_block_storage.Node.Steps.{
  Op, wrote, committed, apply, Orderly, InHand, Between, Sound, AllWrote, OfRelay, Held,
}

pub Orderly-append :
    (c w : ℕ) (ops : List Op) (c' w' : ℕ) (more : List Op) (c2 w2 : ℕ)
    → Orderly c w ops c' w'
    → Orderly c' w' more c2 w2
    → Orderly c w (ops ++ more) c2 w2
Orderly-append c w [] c' w' more c2 w2 h k =
    subst (λ x. Orderly x w more c2 w2) (sym h.0) (subst (λ x. Orderly c' x more c2 w2) (sym h.1) k)
Orderly-append c w (wrote e ∷ ops) c' w' more c2 w2 h k =
    (h.0, Orderly-append c (w + 1) ops c' w' more c2 w2 h.1 k)
Orderly-append c w (committed s offset ∷ ops) c' w' more c2 w2 h k =
    (h.0, h.1, Orderly-append (c + 1) w ops c' w' more c2 w2 h.2 k)

pub Between-pushed :
    (c w : ℕ) (sent sent' : SentList)
    → c ≤ w
    → Between c w sent
    → ((j : ℤ) → j ≢ pos (w + 1) → lookup j sent' ≡ lookup j sent)
    → Between c (w + 1) sent'
Between-pushed c w sent sent' h b others (negsuc j) e f =
    let (i, same, above, below) = b (negsuc j) e (sym (others (negsuc j) (λ p. absurd (cc))) ∙ f) in
    absurd (cc)
Between-pushed c w sent sent' h b others (pos j) e f = elim (Bool-cases (j == w + 1)) [
  | inl last ↦ (j, refl, ground arith, ground arith)
  | inr before ↦
      let (i, same, above, below) =
        b (pos j) e (sym (others (pos j) (λ p. absurd (ground arith))) ∙ f) in
      (i, same, above, omega arith)
]

pub Between-popped :
    (c w : ℕ) (sent sent' : SentList)
    → Between c w sent
    → lookup (pos (c + 1)) sent' ≡ none
    → ((j : ℤ) → j ≢ pos (c + 1) → lookup j sent' ≡ lookup j sent)
    → Between (c + 1) w sent'
Between-popped c w sent sent' b gone others (negsuc j) e f =
    let (i, same, above, below) = b (negsuc j) e (sym (others (negsuc j) (λ p. absurd (cc))) ∙ f) in
    absurd (cc)
Between-popped c w sent sent' b gone others (pos j) e f = elim (Bool-cases (j == c + 1)) [
  | inl first ↦ absurd (ground arith)
  | inr later ↦
      let (i, same, above, below) =
        b (pos j) e (sym (others (pos j) (λ p. absurd (ground arith))) ∙ f) in
      (i, same, ground arith, below)
]

module _ {V : Type 0} (storage : Storage V) (crashes : ℕ → Bool) where
  pub apply-append :
      (ops more : List Op) (v : V)
      → apply storage (ops ++ more) v ≡ apply storage more (apply storage ops v)
  apply-append [] more v = refl
  apply-append (wrote e ∷ ops) more v = apply-append ops more _
  apply-append (committed s offset ∷ ops) more v = apply-append ops more _

  -- From `n` to `n'`, by calls in order.
  pub record Advanced (n : Node V) (c : ℕ) (n' : Node V) : Type 0 where
    pub ops : List Op
    pub commit_number : ℕ
    pub applied : n'.volume ≡ apply storage ops n.volume
    pub orderly : Orderly c n.write_seq ops commit_number n'.write_seq
    pub sound : Sound n' commit_number

  Advanced-append :
      (n : Node V) (c : ℕ) (n' n'' : Node V) (first : Advanced n c n')
      → Advanced n' first.commit_number n''
      → Advanced n c n''
  Advanced-append n c n' n'' first rest = record {
    ops = first.ops ++ rest.ops;
    commit_number = rest.commit_number;
    applied =
        rest.applied
        ∙ ap (apply storage rest.ops) first.applied
        ∙ sym (apply-append first.ops rest.ops n.volume);
    orderly =
        Orderly-append c n.write_seq first.ops first.commit_number n'.write_seq rest.ops _ _
          first.orderly rest.orderly;
    sound = rest.sound;
  }

  -- The volume, the sent list, the numbers and the relay are as they were.
  abbrev pub Same : Node V → Node V → Type 0
  Same n n' =
      (n'.volume ≡ n.volume)
      × (n'.write_seq ≡ n.write_seq)
      × (n'.commit_seq ≡ n.commit_seq)
      × (n'.sent ≡ n.sent)
      × (n'.relay ≡ n.relay)

  enqueue-Same :
      {A : Type 0} (m : Node V) (e : PendingQueue.Entry) (a : A) → Same m (enqueue m e a).0
  unfolding enqueue
  enqueue-Same m e a = ground arith

  pub write-Same : (n : Node V) (r : WriteRequest) → Same n (write n r).0
  unfolding write enqueue
  write-Same n r = ground arith

  pub relay_write-Same : (n : Node V) (r : RelayWriteRequest) → Same n (relay_write n r).0
  unfolding relay_write enqueue
  relay_write-Same n r = ground arith

  -- A number that is not the next stays out of the sent list's pops.
  pub not_there :
      (n : Node V) (c k : ℕ) → Sound n c → n.write_seq < k → lookup (pos k) n.sent ≡ none
  not_there n c k s h = elim (Option-cases (lookup (pos k) n.sent)) [
    | inl missing ↦ missing
    | inr (e, found) ↦ let (j, same, _, below) = s.between (pos k) e found in absurd (ground arith)
  ]

  -- The same where the entries that wait are some `P`: those that are written are, and those that
  -- wait then.
  module _ (P : PendingQueue.Entry → Type 0) where
    pub record Stepped (n : Node V) (c : ℕ) (n' : Node V) : Type 0 where
      pub advanced : Advanced n c n'
      pub entries : AllWrote P advanced.ops
      pub held : Held P n'

    pub Stepped-append :
        (n : Node V) (c : ℕ) (n' n'' : Node V) (first : Stepped n c n')
        → Stepped n' first.advanced.commit_number n''
        → Stepped n c n''
    unfolding Advanced-append
    Stepped-append n c n' n'' first rest = record {
      advanced = Advanced-append n c n' n'' first.advanced rest.advanced;
      entries = AllWrote-append P first.advanced.ops rest.advanced.ops first.entries rest.entries;
      held = rest.held;
    }

    pub with_relay :
        (n : Node V) (c : ℕ) (r : Relay) (q : PendingQueue.PendingQueue)
        → Sound n c
        → InHand n.write_seq r
        → All P q.queue
        → OfRelay P r
        → Stepped n c (record n { relay = r; pending = q })
    with_relay n c r q s h a p = record {
      entries = tt;
      held = (a, p);
      advanced = record {
        ops = [];
        commit_number = c;
        applied = refl;
        orderly = (refl, refl);
        sound = record {
          commits = s.commits;
          behind = s.behind;
          ordered = s.ordered;
          between = s.between;
          in_hand = h;
        };
      };
    }

    pub quiet : (n n' : Node V) (c : ℕ) → Sound n c → Same n n' → Held P n' → Stepped n c n'
    quiet n n' c s (v, w, q, l, r) a = record {
      entries = tt;
      held = a;
      advanced = record {
        ops = [];
        commit_number = c;
        applied = v;
        orderly = (refl, sym w);
        sound = record {
          commits = q ∙ s.commits;
          behind = rw w s.behind;
          ordered = subst IsOrdered (sym l) s.ordered;
          between = rw (w, l) s.between;
          in_hand = rw (w, r) s.in_hand;
        };
      };
    }
