-- ===== src/Master/Chain/Head.antt =====
-- The repair after the head fails.
use chained_block_storage.Base.{
  ℕ, ◌≤◌, ◌≡◌, refl, ◌∙◌, inl, inr, true, false, some, List, [], ◌∷◌, ◌++◌, arith, Bool-cases,
}
use chained_block_storage.Protocol.{head_state, single_state, is_ok}
use chained_block_storage.Master.Nodes.{Master, remove_all, set_state, points_at}
use chained_block_storage.Master.Failure.{
  Answers, mode_request, Scan, scan, drop, head_scanned, head_failed,
}
use chained_block_storage.Master.Chain.{count, is_nonempty, last, role, Follows}
use chained_block_storage.Master.Chain.Positions.{rewind, points_at-last, Follows-set_state}
use chained_block_storage.Master.Chain.Repair.{
  asked, survivors, Repaired, drop_front, scan-cons, IsChain-of, count_tail, distinct_tail,
  state-set_state, nobody_left, At, drop_start,
}

asked-role : (ns : List ℕ) → asked head_state ns ≡ role false (is_nonempty ns)
unfolding role
asked-role [] = refl
asked-role (n ∷ ns) = refl

module _ (answers : Answers) (m : Master) where
  head_takes_over :
      (n : ℕ) (ns drop_list : List ℕ)
      → remove_all drop_list m.node_list ≡ n ∷ ns
      → m.tail ≡ last (n ∷ ns)
      → ((k : ℕ) → count k (n ∷ ns) ≤ 1)
      → Follows m.node true ns
      → Repaired (n ∷ ns) (head_scanned m (Scan.found n (asked head_state ns) drop_list))
  unfolding head_scanned drop
  head_takes_over n ns drop_list left ends d f =
      let node' = set_state m.node n (asked head_state ns) in
      let m' : Master = record m {
        node = node';
        head = some n;
        node_list = remove_all drop_list m.node_list;
      } in
      record {
        repaired = m';
        success = refl;
        in_order =
            IsChain-of m' left
              (
                state-set_state m.node n (asked head_state ns) ∙ asked-role ns,
                Follows-set_state m.node n (asked head_state ns) true ns (count_tail n ns d) f,
              )
              d (inr (refl, ends));
        consists = left;
      }

  head_scan :
      (n : ℕ) (ns drop_list : List ℕ)
      → remove_all drop_list m.node_list ≡ n ∷ ns
      → m.tail ≡ last (n ∷ ns)
      → ((k : ℕ) → count k (n ∷ ns) ≤ 1)
      → Follows m.node true ns
      → Repaired
          (survivors answers head_state (n ∷ ns))
          (head_scanned m (scan answers head_state m.tail (n ∷ ns) drop_list))
  unfolding survivors
  head_scan n [] drop_list left ends d f =
      let last_one : points_at m.tail n ≡ true =
        rw ends (points_at-last n [] (count_tail n [] d)) in
      elim (Bool-cases (is_ok (answers.change_mode n (mode_request single_state)).0)) [
        | inl accepts ↦
            rw (scan-cons answers head_state m.tail n [] drop_list last_one, accepts)
              (head_takes_over n [] drop_list left ends d f)
        | inr refuses ↦
            rw (scan-cons answers head_state m.tail n [] drop_list last_one, refuses)
              (unfold head_scanned in
                nobody_left m (drop_list ++ n ∷ [])
                  (drop_front n drop_list [] m.node_list left (count_tail n [] d)))
      ]
  head_scan n (k ∷ ns) drop_list left ends d f =
      let more : points_at m.tail n ≡ false =
        rw ends (points_at-last n (k ∷ ns) (count_tail n (k ∷ ns) d)) in
      elim (Bool-cases (is_ok (answers.change_mode n (mode_request head_state)).0)) [
        | inl accepts ↦
            rw (scan-cons answers head_state m.tail n (k ∷ ns) drop_list more, accepts)
              (head_takes_over n (k ∷ ns) drop_list left ends d f)
        | inr refuses ↦
            rw (scan-cons answers head_state m.tail n (k ∷ ns) drop_list more, refuses)
              (head_scan k ns (drop_list ++ n ∷ [])
                (drop_front n drop_list (k ∷ ns) m.node_list left (count_tail n (k ∷ ns) d))
                (unfold last in ends) (distinct_tail n (k ∷ ns) d) f.1)
      ]

-- When the head of a chain in order fails and other nodes are left, the nodes from the first on that
-- accepts its place become the chain, in order, whatever each of them answers.
pub head_failed-Repaired :
    (answers : Answers) (m : Master) (h n : ℕ) (ns : List ℕ)
    → At m [] h (n ∷ ns)
    → Repaired
        (survivors answers head_state (n ∷ ns))
        (head_failed answers m (record { before = []; current = h; after = n ∷ ns }))
unfolding head_failed rewind
head_failed-Repaired answers m h n ns a =
    head_scan answers m n ns (h ∷ []) (drop_start m [] h (n ∷ ns) a) (unfold last in a.tail_end)
      (λ k. unfold count in ground (arith, a.once k)) a.follows.1
