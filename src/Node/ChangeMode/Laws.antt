-- ===== src/Node/ChangeMode/Laws.antt =====
-- What a change of mode leaves as it was, and when it keeps the lock.
use chained_block_storage.Base.{
  ℕ, ◌+◌, ◌^◌, ◌<◌, ◌≡◌, ap, subst, ◌∙◌, true, false, none, some, ◌∷◌, arith,
}
use chained_block_storage.Protocol.{ServerIp, ChangeModeRequest}
use chained_block_storage.Tables.Request.{throws, invalid_argument}
use chained_block_storage.Tables.Int.{ℤ, pos, to_int, to_int_small}
use chained_block_storage.Tables.SentList.{SentEntry, SentList, get_sent_list_range, is_zero}
use chained_block_storage.Tables.SentList.Laws.{
  IsOrdered, lookup, Ranged, get_sent_list_range-lookup,
}
use chained_block_storage.Node.{Storage, Node}
use chained_block_storage.Node.Handlers.{raises, waits}
use chained_block_storage.Node.Steps.{Sound}
use chained_block_storage.Node.Order.{not_there}
use chained_block_storage.Node.ChangeMode.{same_state, reconnect, change_mode}

range_past_all :
    (list : SentList) (x : ℤ × SentEntry) (xs : SentList) (k : ℕ)
    → IsOrdered list
    → list ≡ x ∷ xs
    → lookup (pos (k + 1)) list ≡ none
    → get_sent_list_range list (pos (k + 1)) ≡ throws invalid_argument
unfolding is_zero
range_past_all list x xs k s e missing =
    let positive : is_zero (pos (k + 1)) ≡ false = ground arith in
    let range : Ranged list (pos (k + 1)) false none (get_sent_list_range list (pos (k + 1))) =
      subst (λ z. Ranged list (pos (k + 1)) z none (get_sent_list_range list (pos (k + 1))))
        positive
        (subst
          (λ b.
            Ranged list (pos (k + 1)) (is_zero (pos (k + 1))) b
              (get_sent_list_range list (pos (k + 1))))
          missing (get_sent_list_range-lookup list (pos (k + 1)) s)) in
    subst
      (λ (l : SentList). Ranged l (pos (k + 1)) false none (get_sent_list_range list (pos (k + 1))))
      e range

module _ {V : Type 0} (storage : Storage V) where
  -- A node with a free lock and writes in its sent list, whose numbers, sent list and relay agree and
  -- fit into an `int`, is asked to keep its state and is joined to a node that has received every
  -- write: the call throws and keeps the lock, and every later call waits.
  pub change_mode_after_all_received :
      (n : Node V) (c : ℕ) (r : ChangeModeRequest) (a : ServerIp) (x : ℤ × SentEntry)
      (xs : SentList)
      → Sound n c
      → n.write_seq + 1 < 2 ^ 31
      → n.mode_locked ≡ false
      → n.sent ≡ x ∷ xs
      → same_state r.new_state n.state ≡ true
      → r.next_addr ≡ some a
      → r.last_seq_num ≡ n.write_seq
      → ((change_mode storage n r).2 ≡ raises invalid_argument)
        × ((later : ChangeModeRequest)
            → (change_mode storage (change_mode storage n r).0 later).2 ≡ waits)
  unfolding change_mode reconnect
  change_mode_after_all_received n c r a x xs s b free some_sent same next all =
      let start : get_sent_list_range n.sent (to_int (r.last_seq_num + 1))
          ≡ throws invalid_argument =
        ap (λ k. get_sent_list_range n.sent (to_int (k + 1))) all
        ∙ ap (get_sent_list_range n.sent) (to_int_small (n.write_seq + 1) b)
        ∙ range_past_all n.sent x xs n.write_seq s.ordered some_sent
            (not_there storage (λ _. false) n c (n.write_seq + 1) s (omega arith)) in
      (ground arith, λ later. ground arith)
