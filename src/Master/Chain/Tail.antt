-- ===== src/Master/Chain/Tail.antt =====
-- The repair after the tail fails.
use chained_block_storage.Base.{
  ℕ, ◌≤◌, ◌≡◌, refl, sym, ◌∙◌, inl, inr, true, false, some, List, [], ◌∷◌, ◌++◌, arith, Bool-cases,
}
use chained_block_storage.Protocol.{tail_state, single_state, is_ok}
use chained_block_storage.Master.Nodes.{Node, Master, remove_all, set_state, points_at}
use chained_block_storage.Master.Failure.{
  Answers, mode_request, Scan, scan, drop, tail_scanned, tail_failed,
}
use chained_block_storage.Master.Chain.{count, is_nonempty, last, role, Follows}
use chained_block_storage.Master.Chain.Positions.{
  rewind, Leads, count-rewind, Follows-rewind, last-rewind, points_at-last, Leads-set_state,
}
use chained_block_storage.Master.Chain.Repair.{
  asked, survivors, Repaired, drop_next, scan-cons, IsChain-of, count_tail, distinct_tail,
  state-set_state, nobody_left, At, drop_start, first_of_place,
}

asked-role : (ns : List ℕ) → asked tail_state ns ≡ role (is_nonempty ns) false
unfolding role
asked-role [] = refl
asked-role (n ∷ ns) = refl

-- The chain ends at a node that follows those of `ns`, nearest first.
ends_at :
    (node : ℕ → Node) (n : ℕ) (ns : List ℕ)
    → (node n).state ≡ role (is_nonempty ns) false
    → Leads node true ns
    → Follows node false (rewind ns (n ∷ []))
ends_at node n ns e l = (Follows-rewind node ns (n ∷ [])).1 (l, (e, tt))

once_rewind :
    (n : ℕ) (ns : List ℕ)
    → ((k : ℕ) → count k (n ∷ ns) ≤ 1)
    → (k : ℕ) → count k (rewind ns (n ∷ [])) ≤ 1
once_rewind n ns d k = rw (count-rewind k ns (n ∷ [])) (unfold count in ground (arith, d k))

module _ (answers : Answers) (m : Master) where
  tail_takes_over :
      (n : ℕ) (ns drop_list : List ℕ)
      → remove_all drop_list m.node_list ≡ rewind ns (n ∷ [])
      → m.head ≡ last (n ∷ ns)
      → ((k : ℕ) → count k (n ∷ ns) ≤ 1)
      → Leads m.node true ns
      → Repaired
          (rewind ns (n ∷ []))
          (tail_scanned m (Scan.found n (asked tail_state ns) drop_list))
  unfolding tail_scanned drop
  tail_takes_over n ns drop_list left ends d l =
      let node' = set_state m.node n (asked tail_state ns) in
      let m' : Master = record m {
        node = node';
        tail = some n;
        node_list = remove_all drop_list m.node_list;
      } in
      record {
        repaired = m';
        success = refl;
        in_order =
            IsChain-of m' left
              (ends_at node' n ns (state-set_state m.node n (asked tail_state ns) ∙ asked-role ns)
                (Leads-set_state m.node n (asked tail_state ns) true ns (count_tail n ns d) l))
              (once_rewind n ns d)
              (inr (ends ∙ sym (first_of_place ns n []), sym (unfold last in last-rewind ns n [])));
        consists = left;
      }

  tail_scan :
      (n : ℕ) (ns drop_list : List ℕ)
      → remove_all drop_list m.node_list ≡ rewind ns (n ∷ [])
      → m.head ≡ last (n ∷ ns)
      → ((k : ℕ) → count k (n ∷ ns) ≤ 1)
      → Leads m.node true ns
      → Repaired
          (rewind (survivors answers tail_state (n ∷ ns)) [])
          (tail_scanned m (scan answers tail_state m.head (n ∷ ns) drop_list))
  unfolding survivors rewind count
  tail_scan n [] drop_list left ends d l =
      let last_one : points_at m.head n ≡ true =
        rw ends (points_at-last n [] (count_tail n [] d)) in
      elim (Bool-cases (is_ok (answers.change_mode n (mode_request single_state)).0)) [
        | inl accepts ↦
            rw (scan-cons answers tail_state m.head n [] drop_list last_one, accepts)
              (tail_takes_over n [] drop_list left ends d l)
        | inr refuses ↦
            rw (scan-cons answers tail_state m.head n [] drop_list last_one, refuses)
              (unfold tail_scanned in
                nobody_left m (drop_list ++ n ∷ [])
                  (drop_next n drop_list [] [] m.node_list left refl refl))
      ]
  tail_scan n (k ∷ ns) drop_list left ends d l =
      let more : points_at m.head n ≡ false =
        rw ends (points_at-last n (k ∷ ns) (count_tail n (k ∷ ns) d)) in
      elim (Bool-cases (is_ok (answers.change_mode n (mode_request tail_state)).0)) [
        | inl accepts ↦
            rw (scan-cons answers tail_state m.head n (k ∷ ns) drop_list more, accepts)
              (tail_takes_over n (k ∷ ns) drop_list left ends d l)
        | inr refuses ↦
            rw (scan-cons answers tail_state m.head n (k ∷ ns) drop_list more, refuses)
              (tail_scan k ns (drop_list ++ n ∷ [])
                (drop_next n drop_list (k ∷ ns) [] m.node_list left (count_tail n (k ∷ ns) d) refl)
                (unfold last in ends) (distinct_tail n (k ∷ ns) d) l.1)
      ]

-- When the tail of a chain in order fails and other nodes are left, the nodes up to the last that
-- accepts its place become the chain, in order, whatever each of them answers.
pub tail_failed-Repaired :
    (answers : Answers) (m : Master) (t n : ℕ) (ns : List ℕ)
    → At m (n ∷ ns) t []
    → Repaired
        (rewind (survivors answers tail_state (n ∷ ns)) [])
        (tail_failed answers m (record { before = n ∷ ns; current = t; after = [] }))
unfolding tail_failed
tail_failed-Repaired answers m t n ns a =
    tail_scan answers m n ns (t ∷ []) (unfold rewind in drop_start m (n ∷ ns) t [] a)
      (unfold last in a.head_end) (λ k. unfold count in ground (arith, a.once k)) a.leads.1
