-- ===== src/Master/Registration/States.antt =====
-- The states of the nodes and the places of the list when a node joins the chain.
use chained_block_storage.Base.{
  ℕ, ◌+◌, ◌≤◌, ◌≡◌, ◌≢◌, refl, ap, sym, subst, ◌∙◌, inl, inr, Bool, true, Option, none, some, List,
  [], ◌∷◌, ◌++◌, ◌==◌, arith, Bool-cases, ==_iff,
}
use chained_block_storage.Protocol.{State, tail_state, ChangeModeRequest}
use chained_block_storage.Master.Nodes.{Node, Master, set_state, points_at}
use chained_block_storage.Master.Chain.{count, is_nonempty, last, role}
use chained_block_storage.Master.Chain.Positions.{rewind, Leads, points_at-last}
use chained_block_storage.Master.Chain.Repair.{At, state-set_state}
use chained_block_storage.Master.Registration.{
  RegisterRequest, same_pointer, old_tail_state, new_node, mode_change,
}

-- A list that is not empty, seen from its last place.
pub at_last :
    (before : List ℕ) (n : ℕ) (ns : List ℕ)
    → (b : List ℕ) × (t : ℕ) × (rewind before (n ∷ ns) ≡ rewind b (t ∷ []))
unfolding rewind
at_last before n [] = (before, n, refl)
at_last before n (k ∷ ns) = at_last (n ∷ before) k ns

pub rewind-append :
    (before after ns : List ℕ) → rewind before after ++ ns ≡ rewind before (after ++ ns)
unfolding rewind
rewind-append [] after ns = refl
rewind-append (b ∷ before) after ns = rewind-append before (b ∷ after) ns

pub Leads-same :
    (node node' : ℕ → Node) (a : Bool) (ns : List ℕ)
    → ((k : ℕ) → 1 ≤ count k ns → (node' k).state ≡ (node k).state)
    → Leads node a ns
    → Leads node' a ns
unfolding count
Leads-same node node' a [] h l = tt
Leads-same node node' a (n ∷ ns) h l =
    (h n (ground arith) ∙ l.0, Leads-same node node' true ns (λ k p. h k (ground arith)) l.1)

same_pointer-points_at : (n : ℕ) (p : Option ℕ) → same_pointer (some n) p ≡ points_at p n
unfolding same_pointer points_at
same_pointer-points_at n none = refl
same_pointer-points_at n (some k) = ground arith

several :
    (before : List ℕ) (x y : ℕ) (zs : List ℕ) {n : ℕ} {ns : List ℕ}
    → rewind before (x ∷ y ∷ zs) ≡ n ∷ ns
    → is_nonempty ns ≡ true
unfolding rewind
several [] x y zs e = ground arith
several (b ∷ before) x y zs e = several before b x (y ∷ zs) e

pub same_length :
    (before : List ℕ) (t : ℕ) {n : ℕ} {ns : List ℕ}
    → rewind before (t ∷ []) ≡ n ∷ ns
    → is_nonempty before ≡ is_nonempty ns
unfolding rewind
same_length [] t e = ground arith
same_length (b ∷ before) t e = sym (several before b t [] e)

pub old_tail_role :
    (m : Master) (before : List ℕ) (t : ℕ)
    → At m before t []
    → old_tail_state m ≡ role (is_nonempty before) true
unfolding old_tail_state role
old_tail_role m before t at =
    let tail : m.tail ≡ some t = unfold last in at.tail_end in
    ground (
      arith,
      at.head_end,
      same_pointer-points_at t (last (t ∷ before)),
      points_at-last t before (unfold count in ground (arith, at.once t)),
    )

-- The states of the nodes after the registration: the old tail's, the new node's, and the others'.
unfoldable pub entered : (ℕ → Node) → ℕ → State → ℕ → ℕ → Node
entered node t s new = set_state (set_state node t s) new tail_state

pub entered_new :
    (node : ℕ → Node) (t : ℕ) (s : State) (new : ℕ) → (entered node t s new new).state ≡ tail_state
unfolding entered
entered_new node t s new = state-set_state (set_state node t s) new tail_state

pub entered_old :
    (node : ℕ → Node) (t : ℕ) (s : State) (new : ℕ) → t ≢ new → (entered node t s new t).state ≡ s
unfolding entered set_state
entered_old node t s new h = ground arith

pub entered_other :
    (node : ℕ → Node) (t : ℕ) (s : State) (new k : ℕ)
    → k ≢ new
    → k ≢ t
    → (entered node t s new k).state ≡ (node k).state
unfolding entered set_state
entered_other node t s new k h j = ground arith

pub ne_of_count : (k n : ℕ) (ns : List ℕ) → 1 ≤ count k ns → count n ns ≡ 0 → k ≢ n
ne_of_count k n ns h z e = absurd (omega (arith, h, subst (λ j. count j ns ≡ 0) (sym e) z))

pub new_node_other :
    (m : Master) (request : RegisterRequest) (k : ℕ)
    → k ≢ m.next_node
    → ((new_node m request).node k).state ≡ (m.node k).state
unfolding new_node
new_node_other m request k h = ground arith

unfoldable pub mode_request_with : RegisterRequest → State → ChangeModeRequest
mode_request_with request s = record {
  prev_addr = none;
  next_addr = some request.server_ip;
  new_state = s;
  last_seq_num = request.last_seq_num;
}

pub mode_change_eq :
    (m : Master) (request : RegisterRequest)
    → mode_change (record (new_node m request) { reg_locked = true }) m.next_node request ≡ record {
      prev_addr = none;
      next_addr = some request.server_ip;
      new_state = old_tail_state m;
      last_seq_num = request.last_seq_num;
    }
unfolding mode_change new_node old_tail_state
mode_change_eq m request = ground arith

pub once_more :
    (k t new : ℕ) (before : List ℕ)
    → count k before + count k (t ∷ []) ≤ 1
    → count new before ≡ 0
    → t ≢ new
    → count k before + count k (t ∷ new ∷ []) ≤ 1
unfolding count
once_more k t new before h z d = elim (Bool-cases (k == new)) [
  | inl same ↦ ground (arith, ap (λ j. count j before) ((==_iff k new).0 same))
  | inr other ↦ ground arith
]
