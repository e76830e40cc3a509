-- ===== src/Node/Order/Calls.antt =====
-- The calls of the volume by the loops of a node: a write when an entry is stored, and a commit of the
-- next number (src/server_main.cpp, NodeListenerImpl.cpp of src/interfaceImpl/serverService).
use chained_block_storage.Base.{
  ℕ, ◌+◌, ◌^◌, ◌<◌, ◌≡◌, ◌≢◌, refl, ap, subst, ◌∙◌, ◌⊎◌, inl, inr, Bool, Option, none, some, [],
  ◌∷◌, arith, Bool-cases, Option-cases,
}
use chained_block_storage.Tables.Request.{ok, throws, Exception, invalid_argument}
use chained_block_storage.Tables.Int.{ℤ, pos, to_int, to_int_small}
use chained_block_storage.Tables.PendingQueue
use chained_block_storage.Tables.SentList
use chained_block_storage.Tables.SentList.{SentEntry, SentList}
use chained_block_storage.Tables.SentList.Laws.{
  IsOrdered, lookup, Pushed, Popped, push_entry-lookup, pop_entry-lookup,
}
use chained_block_storage.Tables.ReplayLog.{commit_log_entry}
use chained_block_storage.Node.{Storage, Node, looking, stopped}
use chained_block_storage.Node.Handlers.{commit_sent}
use chained_block_storage.Node.Background.{store}
use chained_block_storage.Node.Steps.{wrote, committed, Sound, Held}
use chained_block_storage.Node.Order.{
  Between-pushed, Between-popped, Stepped, with_relay, not_there,
}

module _ {V : Type 0} (storage : Storage V) (crashes : ℕ → Bool)
    (P : PendingQueue.Entry → Type 0) where
  after_store :
      (n : Node V) (c : ℕ) (e : PendingQueue.Entry) (sent' : SentList)
      → Sound n c
      → e.seq_num ≡ n.write_seq + 1
      → IsOrdered sent'
      → ((j : ℤ) → j ≢ pos (n.write_seq + 1) → lookup j sent' ≡ lookup j n.sent)
      → Held P n
      → P e
      → Stepped storage crashes P n c (record n {
        volume = storage.write e.bytes e.volume_offset e.seq_num n.volume;
        write_seq = n.write_seq + 1;
        sent = sent';
        relay = looking;
      })
  after_store n c e sent' s h ordered others a p = record {
    entries = (p, tt);
    held = (a.0, tt);
    advanced = record {
      ops = wrote e ∷ [];
      commit_number = c;
      applied = refl;
      orderly = (h, (refl, refl));
      sound = record {
        commits = s.commits;
        behind = ground (arith, s.behind);
        ordered = ordered;
        between = Between-pushed c n.write_seq n.sent sent' s.behind s.between others;
        in_hand = tt;
      };
    };
  }

  pub stored :
      (n : Node V) (c : ℕ) (e : PendingQueue.Entry)
      → Sound n c
      → e.seq_num ≡ n.write_seq + 1
      → n.write_seq + 1 < 2 ^ 31
      → Held P n
      → P e
      → Stepped storage crashes P n c (store storage crashes n e)
  unfolding store
  stored n c e s h b a p = elim (Bool-cases (crashes e.volume_offset)) [
    | inl ends ↦ rw ends (with_relay storage crashes P n c stopped n.pending s tt a.0 tt)
    | inr goes ↦
        let entry : SentEntry = record { req_id = e.req_id; volume_offset = e.volume_offset } in
        let (sent', pushed, ordered, _, others, _) =
          subst
            (λ (before : Option SentEntry).
              Pushed n.sent (pos (n.write_seq + 1)) entry before
                (SentList.push_entry n.sent (pos (n.write_seq + 1)) entry))
            (not_there storage crashes n c (n.write_seq + 1) s (omega arith))
            (push_entry-lookup n.sent (pos (n.write_seq + 1)) entry s.ordered) in
        let key : to_int e.seq_num ≡ pos (n.write_seq + 1) =
          ap to_int h ∙ to_int_small (n.write_seq + 1) b in
        rw (goes, key, pushed) (after_store n c e sent' s h ordered others a p)
  ]

  after_commit :
      (n : Node V) (c : ℕ) (entry : SentEntry) (sent' : SentList)
      → Sound n c
      → lookup (pos (c + 1)) n.sent ≡ some entry
      → IsOrdered sent'
      → lookup (pos (c + 1)) sent' ≡ none
      → ((j : ℤ) → j ≢ pos (c + 1) → lookup j sent' ≡ lookup j n.sent)
      → Held P n
      → Stepped storage crashes P n c (record n {
        sent = sent';
        volume = storage.commit (pos (c + 1)) entry.volume_offset n.volume;
        log = (commit_log_entry n.log entry.req_id).0;
        commit_seq = pos (c + 1);
      })
  after_commit n c entry sent' s found ordered gone others a =
      let (j, same, above, below) = s.between (pos (c + 1)) entry found in
      let next : c < n.write_seq = ground arith in
      record {
        entries = tt;
        held = a;
        advanced = record {
          ops = committed (pos (c + 1)) entry.volume_offset ∷ [];
          commit_number = c + 1;
          applied = refl;
          orderly = (refl, next, (refl, refl));
          sound = record {
            commits = refl;
            behind = omega arith;
            ordered = ordered;
            between = Between-popped c n.write_seq n.sent sent' s.between gone others;
            in_hand = s.in_hand;
          };
        };
      }

  -- The commit of the next number, if its write is in the sent list.
  abbrev pub Next : Node V → ℕ → Type 0
  Next n c =
      ((x : Exception) × (commit_sent storage n (pos (c + 1)) (pos (c + 1)) (pos (c + 1))
          ≡ throws x))
      ⊎ ((n' : Node V) × (commit_sent storage n (pos (c + 1)) (pos (c + 1)) (pos (c + 1)) ≡ ok n')
          × Stepped storage crashes P n c n')

  pub next : (n : Node V) (c : ℕ) → Sound n c → Held P n → Next n c
  unfolding commit_sent
  next n c s a = elim (Option-cases (lookup (pos (c + 1)) n.sent)) [
    | inl missing ↦
        let popped : SentList.pop_entry n.sent (pos (c + 1)) ≡ throws invalid_argument =
          subst (λ b. Popped n.sent (pos (c + 1)) b (SentList.pop_entry n.sent (pos (c + 1))))
            missing (pop_entry-lookup n.sent (pos (c + 1)) s.ordered) in
        inl (invalid_argument, rw (popped, commit_sent))
    | inr (entry, found) ↦
        let (sent', popped, ordered, gone, others) =
          subst (λ b. Popped n.sent (pos (c + 1)) b (SentList.pop_entry n.sent (pos (c + 1)))) found
            (pop_entry-lookup n.sent (pos (c + 1)) s.ordered) in
        inr
          (_, rw (popped, commit_sent), after_commit n c entry sent' s found ordered gone others a)
  ]
