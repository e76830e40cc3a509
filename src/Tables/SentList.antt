-- ===== src/Tables/SentList.antt =====
-- `Tables::SentList` (src/tablesImpl/sentList.cpp): writes that are on the volume and wait for
-- their commit, by sequence number. Each call runs under the lock of the list, as one step.
pub mod Laws
use chained_block_storage.Base.{
  ℕ, ◌≡◌, Bool, true, false, Option, none, some, List, [], ◌∷◌, length, ◌==◌, if◌then◌else◌,
}
use chained_block_storage.OrderedMap
use chained_block_storage.OrderedMap.{OrderedMap}
use chained_block_storage.OrderedMap.Append.{copy}
use chained_block_storage.Tables.Request.{
  ClientRequestId, Result, ok, throws, Exception, invalid_argument, length_error,
}
use chained_block_storage.Tables.Int.{ℤ, pos, negsuc, int_order}

-- `sentListEntry`.
pub record SentEntry : Type 0 where
  pub req_id : ClientRequestId
  pub volume_offset : ℕ

abbrev pub SentList : Type 0
SentList = OrderedMap ℤ SentEntry

unfoldable pub push_entry : SentList → ℤ → SentEntry → Result SentList
push_entry list seq_num entry =
    if OrderedMap.is_new int_order seq_num list
    then ok (OrderedMap.insert int_order seq_num entry list)
    else throws invalid_argument

unfoldable pub get_list_size : SentList → ℕ
get_list_size list = length list

unfoldable pub pop_entry : SentList → ℤ → Result (SentEntry × SentList)
unfolding get_list_size
pop_entry list seq_num =
    if get_list_size list == 0
    then throws invalid_argument
    else (elim (OrderedMap.find int_order seq_num list) [
      | none ↦ throws invalid_argument
      | some entry ↦ ok (entry, OrderedMap.erase int_order seq_num list)
    ])

-- The entries from the iterator on, copied into a map of their own.
copy_from : SentList → ℤ → Result SentList
copy_from list start = elim (OrderedMap.find int_order start list) [
  | none ↦ throws invalid_argument
  | some _ ↦ ok (copy int_order (OrderedMap.from int_order start list) [])
]

unfoldable pub is_zero : ℤ → Bool
is_zero (pos n) = n == 0
is_zero (negsuc n) = false

unfoldable pub get_sent_list_range : SentList → ℤ → Result SentList
unfolding get_list_size copy_from is_zero
get_sent_list_range list start =
    if get_list_size list == 0
    then throws length_error
    else if is_zero start
    then ok (copy int_order list [])
    else copy_from list start
