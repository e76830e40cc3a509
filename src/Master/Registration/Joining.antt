-- ===== src/Master/Registration/Joining.antt =====
-- What a registration does to a chain in order.
use chained_block_storage.Base.{
  ℕ, ◌+◌, ◌≡◌, ◌≢◌, refl, ap, sym, subst, ◌∙◌, inr, Bool, true, false, Option, none, some, List, [],
  ◌∷◌, ◌++◌, arith,
}
use chained_block_storage.Protocol.{single_state, Status, ServerIp, ChangeModeRequest}
use chained_block_storage.Master.Nodes.{Node, Master, set_state, address}
use chained_block_storage.Master.Chain.{count, is_nonempty, last, role, Follows, IsChain}
use chained_block_storage.Master.Chain.Positions.{rewind, count-rewind, Follows-rewind, last-rewind}
use chained_block_storage.Master.Chain.Repair.{
  IsChain-of, At, At-place, first_of_place, state-set_state,
}
use chained_block_storage.Master.Registration.{
  RegisterRequest, reached, contact, Outcome, registered, old_tail_state, new_node, mode_change,
  register,
}
use chained_block_storage.Master.Registration.States.{
  at_last, rewind-append, Leads-same, same_length, old_tail_role, entered, entered_new, entered_old,
  entered_other, ne_of_count, new_node_other, mode_request_with, mode_change_eq, once_more,
}

-- The call that tells the old tail, by the list before the registration.
abbrev pub Told : Master → RegisterRequest → Option (ℕ × ChangeModeRequest) → List ℕ → Type 0
Told m request call [] = call ≡ none
Told m request call (n ∷ ns) =
    (t : ℕ) × (last (n ∷ ns) ≡ some t)
    × (call
        ≡ some (
          t,
          record {
            prev_addr = none;
            next_addr = some request.server_ip;
            new_state = role (is_nonempty ns) true;
            last_seq_num = request.last_seq_num;
          },
        ))

pub record Joined (m : Master) (request : RegisterRequest) (o : Outcome) : Type 0 where
  pub joined : Master
  pub call : Option (ℕ × ChangeModeRequest)
  pub prev_addr : Option ServerIp
  pub success : o ≡ registered joined call prev_addr
  pub in_order : IsChain joined
  pub consists : joined.node_list ≡ m.node_list ++ m.next_node ∷ []
  pub unlocked : joined.reg_locked ≡ false
  pub tells : Told m request call m.node_list

module _ (m : Master) (request : RegisterRequest) (beats modes : List Status)
    (free : m.reg_locked ≡ false) (chain : IsChain m) (fresh : count m.next_node m.node_list ≡ 0)
    (beat : contact beats ≡ reached) (mode : contact modes ≡ reached) where
  Joined-empty : m.node_list ≡ [] → Joined m request (register m request beats modes)
  unfolding register last
  Joined-empty e =
      let m' : Master = record m {
        node = set_state (new_node m request).node m.next_node single_state;
        node_list = m.next_node ∷ [];
        head = some m.next_node;
        tail = some m.next_node;
        reg_locked = false;
        next_node = m.next_node + 1;
      } in
      record {
        joined = m';
        call = none;
        prev_addr = none;
        success = ground arith;
        in_order =
            IsChain-of m' refl (unfold role in state-set_state _ m.next_node single_state, tt)
              (λ k. unfold count in ground arith) (inr (refl, refl));
        consists = ground arith;
        unlocked = refl;
        tells = subst (Told m request none) (sym e) refl;
      }

  abbrev node' : ℕ → ℕ → Node
  node' t = entered (new_node m request).node t (old_tail_state m) m.next_node

  joined_states :
      (before : List ℕ) (t : ℕ)
      → At m before t []
      → count m.next_node before ≡ 0
      → t ≢ m.next_node
      → Follows (node' t) false (rewind before (t ∷ m.next_node ∷ []))
  joined_states before t at absent differs =
      (Follows-rewind (node' t) before (t ∷ m.next_node ∷ [])).1 (
        Leads-same m.node (node' t) true before
            (λ k p.
              entered_other _ t _ m.next_node k (ne_of_count k m.next_node before p absent)
                (ne_of_count k t before p (unfold count in ground (arith, at.once t)))
              ∙ new_node_other m request k (ne_of_count k m.next_node before p absent))
            at.leads,
        (
          entered_old _ t _ m.next_node differs ∙ old_tail_role m before t at,
          (unfold role in entered_new _ t _ m.next_node, tt),
        ),
      )

  Joined-some :
      (n : ℕ) (ns before : List ℕ) (t : ℕ)
      → m.node_list ≡ n ∷ ns
      → n ∷ ns ≡ rewind before (t ∷ [])
      → Joined m request (register m request beats modes)
  unfolding register entered last mode_request_with
  Joined-some n ns before t e place =
      let at = At-place m before t [] chain (e ∙ place) in
      let tail : m.tail ≡ some t = unfold last in at.tail_end in
      let gone : count m.next_node before + count m.next_node (t ∷ []) ≡ 0 =
        sym (count-rewind m.next_node before (t ∷ []))
        ∙ ap (count m.next_node) (sym (e ∙ place))
        ∙ fresh in
      let absent : count m.next_node before ≡ 0 = omega arith in
      let differs : t ≢ m.next_node = unfold count in ground arith in
      let m' : Master = record m {
        node = node' t;
        node_list = (n ∷ ns) ++ m.next_node ∷ [];
        tail = some m.next_node;
        reg_locked = false;
        next_node = m.next_node + 1;
      } in
      record {
        joined = m';
        call = some (
          t,
          mode_change (record (new_node m request) { reg_locked = true }) m.next_node request,
        );
        prev_addr = some (address (new_node m request).node t);
        success = ground arith;
        in_order =
            IsChain-of m'
              (ap (λ (l : List ℕ). l ++ m.next_node ∷ []) place
                ∙ rewind-append before (t ∷ []) (m.next_node ∷ []))
              (joined_states before t at absent differs)
              (λ k.
                rw (count-rewind k before (t ∷ m.next_node ∷ []))
                  (once_more k t m.next_node before (at.once k) absent differs))
              (inr (
                at.head_end ∙ sym (first_of_place before t (m.next_node ∷ [])),
                sym (last-rewind before t (m.next_node ∷ [])),
              ));
        consists = ground arith;
        unlocked = refl;
        tells = subst (Told m request _) (sym e) (
          t,
          ap last place ∙ last-rewind before t [],
          ap (λ (r : ChangeModeRequest). some (t, r))
              (mode_change_eq m request
                ∙ ap (mode_request_with request) (
                    old_tail_role m before t at
                    ∙ ap (λ (b : Bool). role b true) (same_length before t (sym place)))),
        );
      }

-- A registration whose calls are both answered, on a chain in order with the lock free, where the
-- pointer of the new node is not in the list: the new node is the tail of a chain in order, behind
-- the nodes of before, and the lock is free again. The old tail, if there is one, is told the address
-- of the new node and its new state: head, if it was alone, and middle otherwise.
pub register-Joined :
    (m : Master) (request : RegisterRequest) (beats modes : List Status)
    → m.reg_locked ≡ false
    → IsChain m
    → count m.next_node m.node_list ≡ 0
    → contact beats ≡ reached
    → contact modes ≡ reached
    → Joined m request (register m request beats modes)
register-Joined m request beats modes free chain fresh beat mode = by_list m.node_list refl
  where
    by_list : (ns : List ℕ) → m.node_list ≡ ns → Joined m request (register m request beats modes)
    by_list [] e = Joined-empty m request beats modes free chain fresh beat mode e
    by_list (n ∷ ns) e =
        let (before, t, place) = at_last [] n ns in
        Joined-some m request beats modes free chain fresh beat mode n ns before t e
          (unfold rewind in place)
