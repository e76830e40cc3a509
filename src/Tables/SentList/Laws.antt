-- ===== src/Tables/SentList/Laws.antt =====
-- What the calls of the sent list do, on every branch, to a list in order.
use chained_block_storage.Base.{
  ◌≡◌, ◌≢◌, refl, ◌∙◌, ap, Bool, true, false, Option, none, some, [], ◌∷◌, arith, if◌then◌else◌,
}
use chained_block_storage.OrderedMap
use chained_block_storage.OrderedMap.{OrderedMap, IsSorted, Above}
use chained_block_storage.OrderedMap.Laws.{
  find-insert_self, find-insert_ne, find-erase_self, find-erase_ne, insert-IsSorted, erase-IsSorted,
}
use chained_block_storage.OrderedMap.Append.{
  copy, copy-append, erase-insert, find-from, from-IsSorted, Below-nil,
}
use chained_block_storage.Tables.Request.{Result, ok, throws, invalid_argument, length_error}
use chained_block_storage.Tables.Int.{ℤ, ltb_ℤ, int_order}
use chained_block_storage.Tables.SentList.{
  SentEntry, SentList, push_entry, pop_entry, is_zero, get_sent_list_range,
}

abbrev pub IsOrdered : SentList → Type 0
IsOrdered = IsSorted int_order

abbrev pub lookup : ℤ → SentList → Option SentEntry
lookup = OrderedMap.find int_order

-- After a push at a key whose entry was `before`.
abbrev pub Pushed : SentList → ℤ → SentEntry → Option SentEntry → Result SentList → Type 0
Pushed list k e (some old) r = r ≡ throws invalid_argument
Pushed list k e none r =
    (list' : SentList) × (r ≡ ok list')
    × IsOrdered list'
    × (lookup k list' ≡ some e)
    × ((j : ℤ) → j ≢ k → lookup j list' ≡ lookup j list)
    × (pop_entry list' k ≡ ok (e, list))

nonempty_of_found :
    (k : ℤ) (e : SentEntry) (list : SentList)
    → lookup k list ≡ some e
    → pop_entry list k ≡ ok (e, OrderedMap.erase int_order k list)
unfolding pop_entry OrderedMap.find
nonempty_of_found k e [] h = absurd (ground arith)
nonempty_of_found k e (x ∷ list) h = ground arith

push_of :
    (list : SentList) (k : ℤ) (e : SentEntry) (before : Option SentEntry)
    → IsOrdered list
    → lookup k list ≡ before
    → Pushed list k e before (push_entry list k e)
unfolding push_entry OrderedMap.is_new
push_of list k e (some old) s h = ground arith
push_of list k e none s h =
    let here : lookup k (OrderedMap.insert int_order k e list) ≡ some e =
      ground (arith, find-insert_self int_order k e list) in
    (
      OrderedMap.insert int_order k e list,
      ground arith,
      insert-IsSorted int_order k e list s,
      here,
      λ j differs. find-insert_ne int_order k j e list s differs,
      nonempty_of_found k e _ here
          ∙ ap (λ (m : SentList). ok (e, m)) (erase-insert int_order k e list h),
    )

-- `pushEntry` on a list in order throws if the key is there, and the list stays; otherwise the
-- entry stands under its key, every other key is as before, the list is in order, and a pop at the
-- key gives the entry back together with the list of before.
pub push_entry-lookup :
    (list : SentList) (k : ℤ) (e : SentEntry)
    → IsOrdered list
    → Pushed list k e (lookup k list) (push_entry list k e)
push_entry-lookup list k e s = push_of list k e _ s refl

-- After a pop at a key whose entry was `before`.
abbrev pub Popped : SentList → ℤ → Option SentEntry → Result (SentEntry × SentList) → Type 0
Popped list k none r = r ≡ throws invalid_argument
Popped list k (some e) r =
    (list' : SentList) × (r ≡ ok (e, list'))
    × IsOrdered list'
    × (lookup k list' ≡ none)
    × ((j : ℤ) → j ≢ k → lookup j list' ≡ lookup j list)

pop_of :
    (list : SentList) (k : ℤ) (before : Option SentEntry)
    → IsOrdered list
    → lookup k list ≡ before
    → Popped list k before (pop_entry list k)
unfolding pop_entry
pop_of list k none s h = ground arith
pop_of list k (some e) s h = (
  OrderedMap.erase int_order k list,
  nonempty_of_found k e list h,
  erase-IsSorted int_order k list s,
  find-erase_self int_order k list s,
  λ j differs. find-erase_ne int_order k j list s differs,
)

-- `popEntry` on a list in order throws if the key is not there; otherwise it gives the entry of the
-- key and takes it out, every other key is as before, and the list is in order.
pub pop_entry-lookup :
    (list : SentList) (k : ℤ) → IsOrdered list → Popped list k (lookup k list) (pop_entry list k)
pop_entry-lookup list k s = pop_of list k _ s refl

-- What a range from `start` gives, by whether `start` is 0 and what stands at it.
abbrev pub Ranged : SentList → ℤ → Bool → Option SentEntry → Result SentList → Type 0
Ranged [] start zero found r = r ≡ throws length_error
Ranged (x ∷ list) start true found r = r ≡ ok (x ∷ list)
Ranged (x ∷ list) start false none r = r ≡ throws invalid_argument
Ranged (x ∷ list) start false (some e) r =
    (list' : SentList) × (r ≡ ok list')
    × IsOrdered list'
    × ((j : ℤ) → lookup j list' ≡ (if ltb_ℤ j start then none else lookup j (x ∷ list)))

copied : (m : SentList) → IsOrdered m → copy int_order m [] ≡ m
copied m s = copy-append int_order m [] s (Below-nil int_order m)

range_of :
    (list : SentList) (start : ℤ) (zero : Bool) (found : Option SentEntry)
    → IsOrdered list
    → is_zero start ≡ zero
    → lookup start list ≡ found
    → Ranged list start zero found (get_sent_list_range list start)
unfolding get_sent_list_range
range_of [] start zero found s z h = refl
range_of (x ∷ list) start true found s z h = ground (arith, copied (x ∷ list) s)
range_of (x ∷ list) start false none s z h = ground arith
range_of (x ∷ list) start false (some e) s z h =
    let sorted = from-IsSorted int_order start (x ∷ list) s in
    (
      OrderedMap.from int_order start (x ∷ list),
      ground (arith, copied (OrderedMap.from int_order start (x ∷ list)) sorted),
      sorted,
      λ j. find-from int_order start j e (x ∷ list) h,
    )

-- `getSentListRange` on a list in order: an empty list throws `length_error`; a start of 0 gives
-- the whole list; a start that is no key throws `invalid_argument`; any other gives, in order,
-- exactly the entries whose keys are not below the start.
pub get_sent_list_range-lookup :
    (list : SentList) (start : ℤ)
    → IsOrdered list
    → Ranged list start (is_zero start) (lookup start list) (get_sent_list_range list start)
get_sent_list_range-lookup list start s = range_of list start _ _ s refl refl
