-- ===== src/Node/Contents.antt =====
-- What a node makes of the contents of its volume (src/server_main.cpp over src/storage.cpp).
use chained_block_storage.Base.{
  ℕ, ◌+◌, ◌*◌, ◌^◌, ◌<◌, ◌≤◌, ◌≡◌, refl, ap, subst, ◌∙◌, Option, none, some, List, [], ◌∷◌, arith,
  inr, Bool, All,
}
use chained_block_storage.Tables.Int.{pos}
use chained_block_storage.Tables.PendingQueue
use chained_block_storage.AtomicStorage.State.{Volume}
use chained_block_storage.AtomicStorage.Strings.{string_data, write_string}
use chained_block_storage.AtomicStorage.Commit.{get_sequence_number}
use chained_block_storage.AtomicStorage.Write.{write}
use chained_block_storage.AtomicStorage.Write.Contents.{BlockOffset}
use chained_block_storage.AtomicStorage.Versions.Disk.{
  Image, Disk, disk_write, disk_commit, Implements,
}
use chained_block_storage.AtomicStorage.Versions.Holds.{Holds, write-Holds, commit-Holds}
use chained_block_storage.Node.{Storage, Node}
use chained_block_storage.Node.Volume.{volume_commit, atomic_storage}
use chained_block_storage.Node.Interleaving.{run-Stepped}
use chained_block_storage.Node.Startup.{start, registered, start-Sound}
use chained_block_storage.Node.Steps.{
  Op, wrote, committed, apply, Orderly, AllWrote, Event, run, Sound, Held, Brings,
}

-- The disk after a list of calls, each written string with what the memory holds behind it.
abbrev pub disk_apply : (ℕ → ℕ → ℕ) → List Op → Disk → Disk
disk_apply behind [] d = d
disk_apply behind (wrote e ∷ ops) d =
    disk_apply behind ops (disk_write d (string_data (behind e.seq_num) e.bytes) e.volume_offset)
disk_apply behind (committed s offset ∷ ops) d = disk_apply behind ops (disk_commit d)

-- The offset is that of a block.
abbrev pub OfBlock : PendingQueue.Entry → Type 0
OfBlock e = BlockOffset e.volume_offset

Orderly-bound : (ops : List Op) (c w c' w' : ℕ) → Orderly c w ops c' w' → w ≤ w'
Orderly-bound [] c w c' w' h = omega (arith, h.1)
Orderly-bound (wrote e ∷ ops) c w c' w' h = omega (arith, Orderly-bound ops c (w + 1) c' w' h.1)
Orderly-bound (committed s offset ∷ ops) c w c' w' h = Orderly-bound ops (c + 1) w c' w' h.2

module _ (garbage behind : ℕ → ℕ → ℕ) (modified : ℕ → Option Volume → List (ℕ × ℕ)) where
  abbrev storage : Storage (Option Volume)
  storage = atomic_storage garbage behind modified

  -- What a run makes of the volume: it implements the disk after calls in order.
  abbrev pub Ran : ℕ → ℕ → Disk → Node (Option Volume) → Type 0
  Ran c w d n' =
      (ops : List Op) × (c' : ℕ) × (v' : Volume) × Orderly c w ops c' n'.write_seq
      × (n'.volume ≡ some v')
      × (n'.commit_seq ≡ pos c')
      × Holds v' (disk_apply behind ops d) c' n'.write_seq

  -- `room` bounds the block numbers of the writes to come, which fit into an `int`; the uninitialised
  -- ones are past it, and the products of them with the size of a block fit into a `long`.
  module _ (room : ℕ) (harmless : (s i : ℕ) → (room < garbage s i) × (garbage s i < 2 ^ 51))
      (fits : room < 2 ^ 31) where
    pub apply-Holds :
        (ops : List Op) (v : Volume) (d : Disk) (c w c' w' : ℕ)
        → Holds v d c w
        → Orderly c w ops c' w'
        → AllWrote OfBlock ops
        → w' < 2 ^ 64
        → v.num_total_blocks + 4 * w' ≤ room + 4 * w
        → (v' : Volume) × (apply storage ops (some v) ≡ some v')
          × Holds v' (disk_apply behind ops d) c' w'
    unfolding write_string
    apply-Holds [] v d c w c' w' h o a b r =
        (v, refl, subst (λ k. Holds v d c' k) o.1 (subst (λ k. Holds v d k w) o.0 h))
    apply-Holds (wrote e ∷ ops) v d c w c' w' h o a b r =
        let g = garbage e.seq_num in
        let later : w + 1 ≤ w' = Orderly-bound ops c (w + 1) c' w' o.1 in
        let buf = string_data (behind e.seq_num) e.bytes in
        let (h', grows) =
          write-Holds g v buf e.volume_offset d c w e.seq_num h o.0 a.0
            (
              inr (omega (arith, (harmless e.seq_num 1).0, later, r)),
              inr (omega (arith, (harmless e.seq_num 2).0, later, r)),
            )
            (omega (arith, fits, later, r)) in
        apply-Holds ops (write g v buf e.volume_offset e.seq_num) (disk_write d buf e.volume_offset)
          c (w + 1) c' w' h' o.1 a.1 b (omega (arith, grows, r))
    apply-Holds (committed s offset ∷ ops) v d c w c' w' h o a b r =
        let later : w ≤ w' = Orderly-bound ops (c + 1) w c' w' o.2 in
        let (v', done, h', same) =
          commit-Holds v offset d c w h o.1 (omega (arith, o.1, later, b))
            (omega (arith, fits, later, r)) in
        let (v2, rest, h2) =
          apply-Holds ops v' (disk_commit d) (c + 1) w c' w' h' o.2 a b (omega (arith, same, r)) in
        (
          v2,
          ap (λ z. apply storage ops (volume_commit z offset (some v))) o.0
              ∙ ap (apply storage ops) done
              ∙ rest,
          h2,
        )

    -- Take a node over the copy-on-write storage, whose volume implements a disk, and any sequence of its
    -- handlers, the rounds of its loops and changes of its state, where all writes that wait or come in
    -- have the offset of a block, the numbers of the writes fit into an `int`, `room` leaves four block
    -- numbers for each of them and is below 2^31, and the uninitialised numbers are above the room and
    -- below 2^51. The process is not ended by a null pointer, and its volume implements the disk after
    -- writes that have the numbers after the last write, in order and without a gap, and commits that
    -- have those after the last commit, no commit before its write; the last numbers are the node's.
    pub run-Holds :
        (crashes : ℕ → Bool) (es : List Event) (n : Node (Option Volume)) (v : Volume) (d : Disk)
        (c : ℕ)
        → n.volume ≡ some v
        → Holds v d c n.write_seq
        → Sound n c
        → Held OfBlock n
        → All (Brings OfBlock) es
        → (run storage crashes es n).write_seq + 1 < 2 ^ 31
        → v.num_total_blocks + 4 * (run storage crashes es n).write_seq ≤ room + 4 * n.write_seq
        → Ran c n.write_seq d (run storage crashes es n)
    run-Holds crashes es n v d c e h s a p b r =
        let n' = run storage crashes es n in
        let stepped = run-Stepped storage crashes OfBlock es n c s a p b in
        let ran = stepped.advanced in
        let (v', applied, h') =
          apply-Holds ran.ops v d c n.write_seq ran.commit_number n'.write_seq h ran.orderly
            stepped.entries (omega (arith, b)) r in
        (
          ran.ops,
          ran.commit_number,
          v',
          ran.orderly,
          ran.applied ∙ ap (apply storage ran.ops) e ∙ applied,
          ran.sound.commits,
          h',
        )

    -- Take a server that starts over a volume of the copy-on-write storage in which nothing waits and
    -- that implements a disk, and that registers as the only one, and then any sequence of its handlers
    -- but Restore and UpdateReplayLog, the rounds of its loops and changes of its state. Every write that
    -- comes in has the offset of a block, the numbers of the writes fit into an `int`, `room` is below
    -- 2^31 and leaves four block numbers for each write, and the uninitialised numbers are above the
    -- room and below 2^51. Then the process is not ended by a null pointer, and its volume implements
    -- the disk after writes that have the numbers after the volume's last commit, in order and without
    -- a gap, and commits that have the same numbers in order, no commit before its write; the last numbers
    -- are the node's.
    pub run-started :
        (crashes : ℕ → Bool) (v : Volume) (d : Image) (es : List Event)
        → Implements v (record { committed = d; waiting = [] })
        → All (Brings OfBlock) es
        → (run storage crashes es (registered storage (start storage (some v)) none)).write_seq + 1
          < 2 ^ 31
        → v.num_total_blocks
            + 4
              * (run storage crashes es
                  (registered storage (start storage (some v)) none)).write_seq
          ≤ room + 4 * v.last_committed
        → Ran v.last_committed v.last_committed
            (record { committed = d; waiting = [] })
            (run storage crashes es (registered storage (start storage (some v)) none))
    unfolding start registered get_sequence_number PendingQueue.empty
    run-started crashes v d es i p b r =
        run-Holds crashes es (registered storage (start storage (some v)) none) v _ v.last_committed
          refl (record { implements = i; last = refl; waiting = omega arith })
          (start-Sound storage (some v)) (tt, tt) p b r
