-- ===== src/Tables/PendingQueue/Validity.antt =====
-- The set of ints and the priority queue agree, and the queue is in order: kept by each operation.
use chained_block_storage.Base.{
  ℕ, ◌<◌, ◌≤◌, ◌≡◌, refl, ◌⊎◌, inl, inr, false, Option, none, some, List, [], ◌∷◌, All, arith,
  Bool-cases,
}
use chained_block_storage.Tables.Request.{int_bits, Result, ok, throws, Exception}
use chained_block_storage.Tables.PendingQueue.{
  Entry, PendingQueue, contains, remove, insert_entry, push_entry, pop_entry, empty,
}
use chained_block_storage.Tables.PendingQueue.Count.{
  count, keys, count_of_contains, count_of_not_contains, count-remove, count-insert_entry,
}

-- Sequence numbers do not fall along the list.
abbrev pub AtLeast : ℕ → List Entry → Type 0
AtLeast n = All (λ e. n ≤ e.seq_num)

abbrev pub IsOrdered : List Entry → Type 0
IsOrdered [] = Unit
IsOrdered (e ∷ es) = AtLeast e.seq_num es × IsOrdered es

pub record IsValid (q : PendingQueue) : Type 0 where
  pub ordered : IsOrdered q.queue
  pub agrees : (k : ℕ) → count k q.seq_num_set ≡ count k (keys q.queue)
  pub distinct : (k : ℕ) → count k (keys q.queue) ≤ 1

AtLeast-insert_entry :
    (n : ℕ) (e : Entry) (xs : List Entry)
    → n ≤ e.seq_num
    → AtLeast n xs
    → AtLeast n (insert_entry e xs)
unfolding insert_entry
AtLeast-insert_entry n e [] h u = (h, tt)
AtLeast-insert_entry n e (x ∷ xs) h u = ground (arith, AtLeast-insert_entry n e xs)

AtLeast-mono : (m n : ℕ) (xs : List Entry) → m ≤ n → AtLeast n xs → AtLeast m xs
AtLeast-mono m n [] h u = tt
AtLeast-mono m n (x ∷ xs) h u = (omega arith, AtLeast-mono m n xs h u.1)

pub insert_entry-IsOrdered :
    (e : Entry) (xs : List Entry) → IsOrdered xs → IsOrdered (insert_entry e xs)
unfolding insert_entry
insert_entry-IsOrdered e [] s = (tt, tt)
insert_entry-IsOrdered e (x ∷ xs) s = ground (
  arith,
  AtLeast-mono e.seq_num x.seq_num xs,
  AtLeast-insert_entry x.seq_num e xs,
  insert_entry-IsOrdered e xs,
)

push_entry_fresh-IsValid :
    (q : PendingQueue) (e : Entry)
    → IsValid q
    → contains (int_bits e.seq_num) q.seq_num_set ≡ false
    → IsValid (record {
      queue = insert_entry e q.queue;
      seq_num_set = int_bits e.seq_num ∷ q.seq_num_set;
    })
unfolding count
push_entry_fresh-IsValid q e v fresh = record {
  ordered = insert_entry-IsOrdered e q.queue v.ordered;
  agrees = λ k. ground (arith, count-insert_entry k e q.queue, v.agrees k);
  distinct = λ k. ground (
    arith,
    count-insert_entry k e q.queue,
    v.agrees k,
    v.distinct k,
    count_of_not_contains (int_bits e.seq_num) q.seq_num_set fresh,
  );
}

-- What a push gives: an exception, or a queue with the entry in its place.
abbrev pub Pushed : PendingQueue → Entry → Result PendingQueue → Type 0
Pushed q e r =
    ((1 ≤ count (int_bits e.seq_num) (keys q.queue)) × (r ≡ throws Exception.invalid_argument))
    ⊎ ((q' : PendingQueue) × (r ≡ ok q')
        × (count (int_bits e.seq_num) (keys q.queue) ≡ 0)
        × (q'.queue ≡ insert_entry e q.queue)
        × IsValid q')

-- A push onto a valid queue throws exactly when an entry that waits has a sequence number with the
-- same low 32 bits; otherwise the entry joins the others in its place, and the queue stays valid.
pub push_entry-Pushed : (q : PendingQueue) (e : Entry) → IsValid q → Pushed q e (push_entry q e)
unfolding push_entry
push_entry-Pushed q e v = elim (Bool-cases (contains (int_bits e.seq_num) q.seq_num_set)) [
  | inl old ↦
      inl (
        omega (arith, v.agrees (int_bits e.seq_num), count_of_contains _ q.seq_num_set old),
        rw old,
      )
  | inr fresh ↦ inr (
    _,
    rw fresh,
    omega (arith, v.agrees (int_bits e.seq_num), count_of_not_contains _ q.seq_num_set fresh),
    refl,
    push_entry_fresh-IsValid q e v fresh,
  )
]

-- The sequence numbers of the list lie above `n`.
abbrev pub Later : ℕ → List Entry → Type 0
Later n = All (λ e. n < e.seq_num)

Later-of_count :
    (n : ℕ) (xs : List Entry) → AtLeast n xs → count (int_bits n) (keys xs) ≡ 0 → Later n xs
unfolding count
Later-of_count n [] u h = tt
Later-of_count n (x ∷ xs) u h = (ground arith, Later-of_count n xs u.1 (ground arith))

-- What a pop gives: nothing, or the first entry and the queue of the others.
abbrev pub Popped : PendingQueue → Option (Entry × PendingQueue) → Type 0
Popped q r =
    ((q.queue ≡ []) × (r ≡ none))
    ⊎ ((e : Entry) × (q' : PendingQueue) × (r ≡ some (e, q'))
        × (q.queue ≡ e ∷ q'.queue)
        × Later e.seq_num q'.queue
        × IsValid q')

pop_first :
    (e : Entry) (es : List Entry) (set : List ℕ)
    → IsValid (record { queue = e ∷ es; seq_num_set = set })
    → Later e.seq_num es
      × IsValid (record { queue = es; seq_num_set = remove (int_bits e.seq_num) set })
unfolding count
pop_first e es set v = (
  Later-of_count e.seq_num es v.ordered.0 (ground (arith, v.distinct (int_bits e.seq_num))),
  record {
    ordered = v.ordered.1;
    agrees = λ k. ground (arith, count-remove k (int_bits e.seq_num) set, v.agrees k);
    distinct = λ k. ground (arith, v.distinct k);
  },
)

pop_entry_of :
    (es : List Entry) (set : List ℕ)
    → IsValid (record { queue = es; seq_num_set = set })
    → Popped
        (record { queue = es; seq_num_set = set })
        (pop_entry (record { queue = es; seq_num_set = set }))
unfolding pop_entry
pop_entry_of [] set v = inl (refl, refl)
pop_entry_of (e ∷ es) set v =
    let (later, valid) = pop_first e es set v in inr (e, _, refl, refl, later, valid)

-- A pop of a valid queue takes the entry with the smallest sequence number of all, and leaves a
-- valid queue of the others; only an empty queue has no top.
pub pop_entry-Popped : (q : PendingQueue) → IsValid q → Popped q (pop_entry q)
pop_entry-Popped q v = pop_entry_of q.queue q.seq_num_set v

pub empty-IsValid : IsValid empty
unfolding empty count
empty-IsValid = record { ordered = tt; agrees = λ k. refl; distinct = λ k. omega arith }
