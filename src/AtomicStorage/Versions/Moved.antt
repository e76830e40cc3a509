-- ===== src/AtomicStorage/Versions/Moved.antt =====
-- The versions in a file in which the blocks in use are the same.
use chained_block_storage.Base.{ℕ, ◌≡◌, sym, subst, ◌∙◌, List, [], ◌∷◌, All, All-map}
use chained_block_storage.AtomicStorage.State.{UncommittedWrite, Volume}
use chained_block_storage.AtomicStorage.Alloc.{Absent, Used}
use chained_block_storage.AtomicStorage.Tree.{Place, number, number-Agrees}
use chained_block_storage.AtomicStorage.Versions.{Rooted, Missing, OfTree, Link, Linked}

pub first-Rooted : (v : Volume) (r : ℕ) (uws : List UncommittedWrite) → Linked v r uws → Rooted v r
first-Rooted v r [] h = h
first-Rooted v r (uw ∷ uws) h = h.0

module _ (v v' : Volume) (kept : (m : ℕ) → Used v m → v'.file m ≡ v.file m) where
  pub number-moved : (r : ℕ) → Rooted v r → (p : Place) → number v'.file r p ≡ number v.file r p
  number-moved r t = number-Agrees v.file v'.file r (λ p h. kept _ (t.in_use p h))

  pub Missing-moved :
      (ns : List ℕ) (r : ℕ) → Rooted v r → Missing v.file ns r → Missing v'.file ns r
  Missing-moved ns r t h p = subst (λ n. Absent n ns) (sym (number-moved r t p)) (h p)

  All-Missing-moved :
      (ns : List ℕ) (uws : List UncommittedWrite) (r : ℕ)
      → Linked v r uws
      → All (λ w. Missing v.file ns w.new_metadata_offset_0) uws
      → All (λ w. Missing v'.file ns w.new_metadata_offset_0) uws
  All-Missing-moved ns [] r h a = tt
  All-Missing-moved ns (uw ∷ uws) r h a = (
    Missing-moved ns uw.new_metadata_offset_0 (first-Rooted v uw.new_metadata_offset_0 uws h.2) a.0,
    All-Missing-moved ns uws uw.new_metadata_offset_0 h.2 a.1,
  )

  pub Link-moved :
      (r : ℕ) (uw : UncommittedWrite) (uws : List UncommittedWrite)
      → Linked v r (uw ∷ uws)
      → Link v'.file r uw uws
  Link-moved r uw uws h =
      let link = h.1 in
      record {
        of_old =
            All-map (OfTree v.file r) (OfTree v'.file r)
              (λ n (p, e, nz). (p, number-moved r h.0 p ∙ e, nz)) uw.to_free link.of_old;
        distinct = link.distinct;
        gone =
            Missing-moved uw.to_free uw.new_metadata_offset_0
              (first-Rooted v uw.new_metadata_offset_0 uws h.2) link.gone;
        gone_later = All-Missing-moved uw.to_free uws uw.new_metadata_offset_0 h.2 link.gone_later;
        one_root = link.one_root;
      }

  -- `ns` are the blocks that come out of use.
  module _ (ns : List ℕ) (used : (m : ℕ) → Used v m → Absent m ns → Used v' m) where
    pub Rooted-moved : (r : ℕ) → Missing v.file ns r → Rooted v r → Rooted v' r
    Rooted-moved r miss t =
        let same = number-moved r t in
        record {
          in_use = λ p h.
              subst (Used v') (sym (same p)) (used _ (t.in_use p (λ z. h (same p ∙ z))) (miss p));
          unique = λ p q h e. t.unique p q (λ z. h (same p ∙ z)) (sym (same p) ∙ e ∙ same q);
        }

    pub Linked-moved :
        (r : ℕ) (uws : List UncommittedWrite)
        → Missing v.file ns r
        → All (λ w. Missing v.file ns w.new_metadata_offset_0) uws
        → Linked v r uws
        → Linked v' r uws
    Linked-moved r [] m a h = Rooted-moved r m h
    Linked-moved r (uw ∷ uws) m a h = (
      Rooted-moved r m h.0,
      Link-moved r uw uws h,
      Linked-moved uw.new_metadata_offset_0 uws a.0 a.1 h.2,
    )
