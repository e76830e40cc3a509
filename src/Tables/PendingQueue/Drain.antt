-- ===== src/Tables/PendingQueue/Drain.antt =====
-- What comes out of the queue when a batch of writes went in, in any order.
use mathlib.Core.List.Perm
use chained_block_storage.Base.{
  ℕ, zero, suc, ◌≡◌, refl, ap, inl, inr, ◌∙◌, sym, none, some, List, [], ◌∷◌, ◌++◌, subst, ltb,
  Bool-cases, arith, length,
}
use mathlib.Core.List.{Perm, perm_middle, append-nil}
use chained_block_storage.Tables.Request.{Result, ok, throws}
use chained_block_storage.Tables.PendingQueue.{
  Entry, PendingQueue, empty, insert_entry, push_entry, pop_entry, get_queue_size,
}
use chained_block_storage.Tables.PendingQueue.Validity.{
  IsValid, Later, push_entry-Pushed, pop_entry-Popped, empty-IsValid,
}

-- Pushes of a batch, one after the other; the first that throws ends it.
unfoldable pub push_all : PendingQueue → List Entry → Result PendingQueue
push_all q [] = ok q
push_all q (e ∷ es) = elim (push_entry q e) [ ok q' ↦ push_all q' es | throws x ↦ throws x ]

-- Pops until the fuel runs out or the queue is empty.
unfoldable pub drain : ℕ → PendingQueue → List Entry
drain zero q = []
drain (suc n) q = elim (pop_entry q) [ none ↦ [] | some (e, q') ↦ e ∷ drain n q' ]

-- Sequence numbers rise strictly.
abbrev pub IsRising : List Entry → Type 0
IsRising [] = Unit
IsRising (e ∷ es) = Later e.seq_num es × IsRising es

insert_entry-perm : (e : Entry) (xs : List Entry) → Perm (e ∷ xs) (insert_entry e xs)
unfolding insert_entry
insert_entry-perm e [] = Perm.refl _
insert_entry-perm e (x ∷ xs) = elim (Bool-cases (ltb e.seq_num x.seq_num)) [
  | inl before ↦ rw before (Perm.refl _)
  | inr after ↦ rw after (Perm.trans (Perm.swap x e xs) (Perm.cons x (insert_entry-perm e xs)))
]

drain_lem :
    (n : ℕ) (q : PendingQueue)
    → IsValid q
    → length q.queue ≡ n
    → (drain n q ≡ q.queue) × IsRising (drain n q)
unfolding drain
drain_lem zero q v h = elim (pop_entry-Popped q v) [
  | inl (e, _) ↦ (sym e, tt)
  | inr (e, q', _, split, _, _) ↦ absurd (omega (arith, ap length split))
]
drain_lem (suc n) q v h = elim (pop_entry-Popped q v) [
  | inl (e, _) ↦ absurd (omega (arith, ap length e))
  | inr (e, q', popped, split, later, valid) ↦
      let (same, rising) = drain_lem n q' valid (omega (arith, ap length split)) in
      rw (popped, drain)
        (ap (◌∷◌ e) same ∙ sym split, (subst (Later e.seq_num) (sym same) later, rising))
]

push_all-IsValid :
    (es : List Entry) (q q' : PendingQueue)
    → IsValid q
    → push_all q es ≡ ok q'
    → IsValid q' × Perm (es ++ q.queue) q'.queue
unfolding push_all
push_all-IsValid [] q q' v h =
    let same : q ≡ q' = cc in
    (subst IsValid same v, subst (λ p. Perm q.queue p.queue) same (Perm.refl q.queue))
push_all-IsValid (e ∷ es) q q' v h = elim (push_entry-Pushed q e v) [
  | inl (_, thrown) ↦ absurd (ground arith)
  | inr (p, pushed, _, placed, valid) ↦
      let (kept, moved) = push_all-IsValid es p q' valid (rw (pushed, push_all) at h) in
      (
        kept,
        Perm.trans (Perm.symm (perm_middle es q.queue)) (
            Perm.trans (Perm.append (Perm.refl es) (rw placed (insert_entry-perm e q.queue)))
              moved),
      )
]

-- A batch of writes that is accepted comes out of the queue whole, once each, and in strictly
-- rising order of sequence number, in whatever order it went in.
pub drain-push_all :
    (es : List Entry) (q : PendingQueue)
    → push_all empty es ≡ ok q
    → Perm es (drain (get_queue_size q) q) × IsRising (drain (get_queue_size q) q)
unfolding get_queue_size
drain-push_all es q h =
    let (valid, perm) = push_all-IsValid es empty q empty-IsValid h in
    let (same, rising) = drain_lem (length q.queue) q valid refl in
    (rw (same, ← append-nil es) (unfold empty in perm), rising)
