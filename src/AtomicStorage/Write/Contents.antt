-- ===== src/AtomicStorage/Write/Contents.antt =====
-- The blocks of data of a new version: the written one, and those of the version before.
use chained_block_storage.Base.{
  ℕ, ◌%◌, ◌^◌, ◌<◌, ◌≡◌, ◌≢◌, ap, sym, ◌∙◌, inl, inr, none, some, ◌==◌, arith, if◌then◌else◌,
  Bool-cases, Option-cases, ==_iff,
}
use chained_block_storage.AtomicStorage.Block.{Block, block_size}
use chained_block_storage.AtomicStorage.Index.{
  get_second_level, get_third_level, get_last_level, get_first_level, get_first_level-zero,
  offset_of, offset_of-levels,
}
use chained_block_storage.AtomicStorage.State.{File, UncommittedWrite, Volume, lookup, block_at}
use chained_block_storage.AtomicStorage.Write.NewVersion.{NewVersion}
use chained_block_storage.AtomicStorage.Alloc.{Used}
use chained_block_storage.AtomicStorage.Tree.{Place, at_last, number, place_of, lookup-number, Way}
use chained_block_storage.AtomicStorage.Tree.Unique.{way_at, rerouted_on, rerouted_off}

-- The block of an offset in the tree with the given root.
abbrev pub content : File → ℕ → ℕ → Block
content f r o = block_at f (lookup f r o)

-- An offset of a block of the volume.
abbrev pub BlockOffset : ℕ → Type 0
BlockOffset o = (o % block_size ≡ 0) × (o < 2 ^ 38)

offset_of-same :
    (o p : ℕ)
    → BlockOffset o
    → BlockOffset p
    → get_second_level o ≡ get_second_level p
    → get_third_level o ≡ get_third_level p
    → get_last_level o ≡ get_last_level p
    → o ≡ p
offset_of-same o p ho hp e2 e3 e4 =
    let first : get_first_level o ≡ get_first_level p =
      get_first_level-zero o ∙ sym (get_first_level-zero p) in
    sym (offset_of-levels o ho.0 ho.1)
    ∙ ap (λ i. offset_of i (get_second_level o) (get_third_level o) (get_last_level o)) first
    ∙ ap (λ j. offset_of (get_first_level p) j (get_third_level o) (get_last_level o)) e2
    ∙ ap (λ k. offset_of (get_first_level p) (get_second_level p) k (get_last_level o)) e3
    ∙ ap (offset_of (get_first_level p) (get_second_level p) (get_third_level p)) e4
    ∙ offset_of-levels p hp.0 hp.1

way_at_last :
    (w : Way) (j k l n : ℕ)
    → way_at w (at_last j k l) ≡ some n
    → (j ≡ w.second_level) × (k ≡ w.third_level) × (l ≡ w.last_level)
unfolding way_at
way_at_last w j k l n e = (ground (arith, e), ground (arith, e), ground (arith, e))

way_at_end :
    (w : Way) (j k l : ℕ)
    → j ≡ w.second_level
    → k ≡ w.third_level
    → l ≡ w.last_level
    → way_at w (at_last j k l) ≡ some w.way_3
unfolding way_at
way_at_end w j k l e2 e3 e4 = ground (arith, e2, e3, e4)

block_at-nonzero : (f : File) (n : ℕ) → n ≢ 0 → block_at f n ≡ f n
unfolding block_at
block_at-nonzero f n h = ground (arith, h)

-- A block of numbers that is not there reads as zeros, whatever the file.
pub block_at-same : (f g : File) (n : ℕ) → (n ≢ 0 → g n ≡ f n) → block_at g n ≡ block_at f n
unfolding block_at
block_at-same f g n h = ground (arith, h)

module _ (v v' : Volume) (s r o : ℕ) (buf : Block) (uw : UncommittedWrite)
    (h : NewVersion v s r o buf uw v') where
  way-on : way_at h.way (place_of o) ≡ some h.way.way_3
  way-on =
      way_at_end h.way (get_second_level o) (get_third_level o) (get_last_level o)
        (sym h.second_level) (sym h.third_level) (sym h.last_level)

  lookup-on : lookup v'.file uw.new_metadata_offset_0 o ≡ h.way.way_3
  lookup-on =
      lookup-number v'.file uw.new_metadata_offset_0 o
      ∙ h.tree (place_of o)
      ∙ rerouted_on h.way v.file r (place_of o) h.way.way_3 way-on

  -- The block is there, and it is the written one.
  pub lookup-nonzero : lookup v'.file uw.new_metadata_offset_0 o ≢ 0
  lookup-nonzero z =
      let used : Used v' h.way.way_3 = h.way_used (place_of o) h.way.way_3 way-on in
      absurd (omega (arith, used.0, lookup-on, z))

  pub content-on : content v'.file uw.new_metadata_offset_0 o ≡ buf
  content-on =
      block_at-nonzero v'.file (lookup v'.file uw.new_metadata_offset_0 o) lookup-nonzero
      ∙ ap v'.file lookup-on
      ∙ h.new_data

  content-off :
      (p : ℕ)
      → ((q : Place) → number v.file r q ≢ 0 → Used v (number v.file r q))
      → way_at h.way (place_of p) ≡ none
      → content v'.file uw.new_metadata_offset_0 p ≡ content v.file r p
  unfolding lookup
  content-off p in_use off =
      let here : lookup v'.file uw.new_metadata_offset_0 p ≡ lookup v.file r p =
        lookup-number v'.file uw.new_metadata_offset_0 p
        ∙ h.tree (place_of p)
        ∙ rerouted_off h.way v.file r (place_of p) off
        ∙ sym (lookup-number v.file r p) in
      ap (block_at v'.file) here
      ∙ block_at-same v.file v'.file (lookup v.file r p) (λ nz. h.kept _ (in_use (place_of p) nz))

  -- The version has the written block at its offset and the blocks of the version before elsewhere.
  pub content-new :
      (p : ℕ)
      → BlockOffset o
      → BlockOffset p
      → ((q : Place) → number v.file r q ≢ 0 → Used v (number v.file r q))
      → content v'.file uw.new_metadata_offset_0 p ≡ (if p == o then buf else content v.file r p)
  content-new p ho hp in_use = elim (Bool-cases (p == o)) [
    | inl same ↦ rw (same, (==_iff p o).0 same) content-on
    | inr differ ↦ elim (Option-cases (way_at h.way (place_of p))) [
      | inl off ↦ rw differ (content-off p in_use off)
      | inr (n, on) ↦
          let levels =
            way_at_last h.way (get_second_level p) (get_third_level p) (get_last_level p) n on in
          let e : p ≡ o =
            offset_of-same p o hp ho (levels.0 ∙ h.second_level) (levels.1 ∙ h.third_level)
              (levels.2 ∙ h.last_level) in
          absurd (ground (arith, differ, e))
    ]
  ]
