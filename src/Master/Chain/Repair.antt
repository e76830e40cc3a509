-- ===== src/Master/Chain/Repair.antt =====
-- What a repair of the chain leaves, and the rounds of the loop for a failed head or tail.
use chained_block_storage.Base.{
  ℕ, ◌+◌, ◌≤◌, ◌≡◌, ◌≢◌, refl, ap, sym, subst, ◌∙◌, ◌⊎◌, inl, inr, true, false, not, Option, List,
  [], ◌∷◌, ◌++◌, if◌then◌else◌, arith,
}
use chained_block_storage.Protocol.{State, single_state, is_ok}
use chained_block_storage.Master.Nodes.{Node, Master, remove, remove_all, set_state, points_at}
use chained_block_storage.Master.Failure.{Answers, Outcome, returns, mode_request, Scan, scan, drop}
use chained_block_storage.Master.Chain.{count, is_nonempty, first, last, role, Follows, IsChain}
use chained_block_storage.Master.Chain.Positions.{
  rewind, Leads, count-rewind, Follows-rewind, last-rewind, first-rewind, remove-rewind,
}

-- The state that the loop for a failed head or tail asks of a node with `ahead` still before it.
abbrev pub asked : State → List ℕ → State
asked failed ahead = if is_nonempty ahead then failed else single_state

-- The nodes ahead from the first on that accepts the place of the failed node.
unfoldable pub survivors : Answers → State → List ℕ → List ℕ
survivors answers failed [] = []
survivors answers failed (n ∷ ahead) =
    if is_ok (answers.change_mode n (mode_request (asked failed ahead))).0
    then n ∷ ahead
    else survivors answers failed ahead

-- The repair returns, with a chain in order that consists of the given nodes.
pub record Repaired (nodes : List ℕ) (o : Outcome) : Type 0 where
  pub repaired : Master
  pub success : o ≡ returns repaired true
  pub in_order : IsChain repaired
  pub consists : repaired.node_list ≡ nodes

pub remove_all-append :
    (ns ks list : List ℕ) → remove_all (ns ++ ks) list ≡ remove_all ks (remove_all ns list)
unfolding remove_all
remove_all-append [] ks list = refl
remove_all-append (n ∷ ns) ks list = remove_all-append ns ks (remove n list)

remove_all_one : (n : ℕ) (list : List ℕ) → remove_all (n ∷ []) list ≡ remove n list
unfolding remove_all
remove_all_one n list = refl

-- One more node is dropped, from its place in what is left.
pub drop_next :
    (n : ℕ) (drop_list before after list : List ℕ)
    → remove_all drop_list list ≡ rewind before (n ∷ after)
    → count n before ≡ 0
    → count n after ≡ 0
    → remove_all (drop_list ++ n ∷ []) list ≡ rewind before after
drop_next n drop_list before after list h b a =
    remove_all-append drop_list (n ∷ []) list
    ∙ remove_all_one n (remove_all drop_list list)
    ∙ ap (remove n) h
    ∙ remove-rewind n before after b a

-- One round of the loop at a node that is the endpoint exactly if no node lies behind it.
pub scan-cons :
    (answers : Answers) (failed : State) (endpoint : Option ℕ) (n : ℕ) (ahead drop_list : List ℕ)
    → points_at endpoint n ≡ not (is_nonempty ahead)
    → scan answers failed endpoint (n ∷ ahead) drop_list ≡ (
        if is_ok (answers.change_mode n (mode_request (asked failed ahead))).0
        then Scan.found n (asked failed ahead) drop_list
        else if is_nonempty ahead
        then scan answers failed endpoint ahead (drop_list ++ n ∷ [])
        else Scan.nobody (drop_list ++ n ∷ []))
unfolding scan
scan-cons answers failed endpoint n [] drop_list h = rw h
scan-cons answers failed endpoint n (k ∷ ahead) drop_list h = rw h

pub IsChain-of :
    (m : Master) {ns : List ℕ}
    → m.node_list ≡ ns
    → Follows m.node false ns
    → ((k : ℕ) → count k ns ≤ 1)
    → (ns ≡ []) ⊎ ((m.head ≡ first ns) × (m.tail ≡ last ns))
    → IsChain m
IsChain-of m list f d ends = record {
  states = subst (Follows m.node false) (sym list) f;
  distinct = subst (λ (l : List ℕ). (k : ℕ) → count k l ≤ 1) (sym list) d;
  ends =
      subst (λ (l : List ℕ). (l ≡ []) ⊎ ((m.head ≡ first l) × (m.tail ≡ last l))) (sym list) ends;
}

pub count_tail : (n : ℕ) (ns : List ℕ) → ((k : ℕ) → count k (n ∷ ns) ≤ 1) → count n ns ≡ 0
unfolding count
count_tail n ns d = ground (arith, d n)

pub distinct_tail :
    (n : ℕ) (ns : List ℕ) → ((k : ℕ) → count k (n ∷ ns) ≤ 1) → (k : ℕ) → count k ns ≤ 1
unfolding count
distinct_tail n ns d k = ground (arith, d k)

pub state-set_state : (node : ℕ → Node) (n : ℕ) (s : State) → (set_state node n s n).state ≡ s
unfolding set_state
state-set_state node n s = ground arith

-- The node at the front of what is left is dropped.
pub drop_front :
    (n : ℕ) (drop_list ns list : List ℕ)
    → remove_all drop_list list ≡ n ∷ ns
    → count n ns ≡ 0
    → remove_all (drop_list ++ n ∷ []) list ≡ ns
unfolding count rewind
drop_front n drop_list ns list h a = drop_next n drop_list [] ns list h refl a

pub nobody_left :
    (m : Master) (drop_list : List ℕ)
    → remove_all drop_list m.node_list ≡ []
    → Repaired [] (returns (drop m drop_list) true)
unfolding drop
nobody_left m drop_list left = record {
  repaired = record m { node_list = remove_all drop_list m.node_list };
  success = refl;
  in_order = IsChain-of _ left tt (λ k. unfold count in omega arith) (inl refl);
  consists = left;
}

-- What a chain in order says at one of its places.
pub record At (m : Master) (before : List ℕ) (n : ℕ) (after : List ℕ) : Type 0 where
  pub place : m.node_list ≡ rewind before (n ∷ after)
  pub leads : Leads m.node true before
  pub here : (m.node n).state ≡ role (is_nonempty before) (is_nonempty after)
  pub follows : Follows m.node true after
  pub once : (k : ℕ) → count k before + count k (n ∷ after) ≤ 1
  pub head_end : m.head ≡ last (n ∷ before)
  pub tail_end : m.tail ≡ last (n ∷ after)

pub first_of_place :
    (before : List ℕ) (n : ℕ) (after : List ℕ)
    → first (rewind before (n ∷ after)) ≡ last (n ∷ before)
unfolding rewind last
first_of_place [] n after = refl
first_of_place (b ∷ before) n after = first-rewind b before (n ∷ after)

not_empty : (before : List ℕ) (n : ℕ) (after : List ℕ) → rewind before (n ∷ after) ≢ []
unfolding rewind
not_empty [] n after e = cc
not_empty (b ∷ before) n after e = not_empty before b (n ∷ after) e

pub At-place :
    (m : Master) (before : List ℕ) (n : ℕ) (after : List ℕ)
    → IsChain m
    → m.node_list ≡ rewind before (n ∷ after)
    → At m before n after
At-place m before n after c e =
    let (l, f) =
      (Follows-rewind m.node before (n ∷ after)).0 (subst (Follows m.node false) e c.states) in
    let (h, t) = ends_of c.ends in
    record {
      place = e;
      leads = l;
      here = f.0;
      follows = f.1;
      once = λ k. rw (← count-rewind k before (n ∷ after), ← e) (c.distinct k);
      head_end = h ∙ ap first e ∙ first_of_place before n after;
      tail_end = t ∙ ap last e ∙ last-rewind before n after;
    }
  where
    ends_of :
        (m.node_list ≡ []) ⊎ ((m.head ≡ first m.node_list) × (m.tail ≡ last m.node_list))
        → (m.head ≡ first m.node_list) × (m.tail ≡ last m.node_list)
    ends_of (inl none_there) = absurd (not_empty before n after (sym e ∙ none_there))
    ends_of (inr ends) = ends

-- The failed node itself is dropped.
pub drop_start :
    (m : Master) (before : List ℕ) (n : ℕ) (after : List ℕ)
    → At m before n after
    → remove_all (n ∷ []) m.node_list ≡ rewind before after
drop_start m before n after a =
    remove_all_one n m.node_list
    ∙ ap (remove n) a.place
    ∙ remove-rewind n before after (unfold count in ground (arith, a.once n))
        (unfold count in ground (arith, a.once n))
