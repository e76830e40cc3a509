-- ===== src/AtomicStorage/Versions/Write.antt =====
-- A write of one whole block adds a version after the last.
use chained_block_storage.Base.{
  ℕ, suc, ◌+◌, ◌≡◌, ◌≢◌, refl, ap, sym, subst, ◌∙◌, inl, inr, Option, some, List, [], ◌∷◌, ◌++◌,
  length, All, All-map, All-append, arith, Option-cases,
}
use chained_block_storage.AtomicStorage.Block.{Block}
use chained_block_storage.AtomicStorage.Index.{get_second_level, get_third_level, get_last_level}
use chained_block_storage.AtomicStorage.State.{UncommittedWrite, Volume, assign}
use chained_block_storage.AtomicStorage.Write.NewVersion.{NewVersion}
use chained_block_storage.AtomicStorage.Alloc.{Absent, Distinct, Used}
use chained_block_storage.AtomicStorage.Tree.{Place, number, Way}
use chained_block_storage.AtomicStorage.Tree.Unique.{
  way_at, rerouted_on, rerouted_off, FreshWay, rerouted-Unique, rerouted-gone,
}
use chained_block_storage.AtomicStorage.Tree.Freed.{
  way_places, All-numbers_at, numbers_at-Distinct, way_places-Distinct,
}
use chained_block_storage.AtomicStorage.Versions.{
  Rooted, Missing, OfTree, Link, Linked, Stored, Consistent, last_root,
}
use chained_block_storage.AtomicStorage.Versions.Moved.{number-moved, Rooted-moved, Link-moved}
use chained_block_storage.AtomicStorage.Versions.Stored.{Stored-assign, Stored-append}

pub last-Rooted :
    (v : Volume) (r : ℕ) (uws : List UncommittedWrite) → Linked v r uws → Rooted v (last_root r uws)
last-Rooted v r [] h = h
last-Rooted v r (uw ∷ uws) h = last-Rooted v uw.new_metadata_offset_0 uws h.2

last-All :
    (P : ℕ → Type 0) (r : ℕ) (uws : List UncommittedWrite)
    → P r
    → All (λ w. P w.new_metadata_offset_0) uws
    → P (last_root r uws)
last-All P r [] h a = h
last-All P r (uw ∷ uws) h a = last-All P uw.new_metadata_offset_0 uws a.0 a.1

abbrev OnWay : Way → Place → Type 0
OnWay w p = (n : ℕ) × (way_at w p ≡ some n)

way_places-OnWay :
    (w : Way) (o : ℕ)
    → w.second_level ≡ get_second_level o
    → w.third_level ≡ get_third_level o
    → w.last_level ≡ get_last_level o
    → All (OnWay w) (way_places o)
unfolding way_at
way_places-OnWay w o e2 e3 e4 = (
  (w.way_0, refl),
  (
    (w.way_1, ground (arith, e2)),
    ((w.way_2, ground (arith, e2, e3)), ((w.way_3, ground (arith, e2, e3, e4)), tt)),
  ),
)

module _ (v v' : Volume) (s o r : ℕ) (buf : Block) (uw : UncommittedWrite)
    (nv : NewVersion v s r o buf uw v') (old : Rooted v r) where
  kept_in_use : (m : ℕ) → Used v m → Absent m [] → Used v' m
  kept_in_use m u a = nv.used m u

  new-FreshWay : FreshWay nv.way v.file r
  new-FreshWay p q n on e =
      let used : Used v' n = nv.way_used p n on in
      nv.fresh p n on (subst (Used v) e (old.in_use q (λ z. absurd (omega (arith, used.0, e, z)))))

  new-Rooted : Rooted v' uw.new_metadata_offset_0
  new-Rooted = record {
    in_use = λ p h. elim (Option-cases (way_at nv.way p)) [
      | inl off ↦
          let same = nv.tree p ∙ rerouted_off nv.way v.file r p off in
          subst (Used v') (sym same) (nv.used _ (old.in_use p (λ z. h (same ∙ z))))
      | inr (n, on) ↦
          subst (Used v') (sym (nv.tree p ∙ rerouted_on nv.way v.file r p n on))
            (nv.way_used p n on)
    ];
    unique = λ p q h e.
        rerouted-Unique nv.way nv.distinct v.file r new-FreshWay old.unique p q
          (λ z. h (nv.tree p ∙ z)) (sym (nv.tree p) ∙ e ∙ nv.tree q);
  }

  new-Missing :
      (ns : List ℕ)
      → All (Used v) ns
      → Missing v.file ns r
      → Missing v'.file ns uw.new_metadata_offset_0
  new-Missing ns used h p = elim (Option-cases (way_at nv.way p)) [
    | inl off ↦
        subst (λ n. Absent n ns) (sym (nv.tree p ∙ rerouted_off nv.way v.file r p off)) (h p)
    | inr (n, on) ↦
        subst (λ n. Absent n ns) (sym (nv.tree p ∙ rerouted_on nv.way v.file r p n on))
          (All-map (Used v) (λ k. k ≢ n) (λ k u e. nv.fresh p n on (subst (Used v) e u)) ns used)
  ]

  new-Link : Link v'.file r uw []
  new-Link =
      let on_way = way_places-OnWay nv.way o nv.second_level nv.third_level nv.last_level in
      record {
        of_old = subst (All (OfTree v'.file r)) (sym nv.gives_up) (
            All-numbers_at (OfTree v'.file r) (OnWay nv.way) v.file r (way_places o) on_way
              (λ p on nz. (p, number-moved v v' nv.kept r old p, nz)));
        distinct =
            subst Distinct (sym nv.gives_up)
              (numbers_at-Distinct v.file r (way_places o) old.unique (way_places-Distinct o));
        gone = λ p. subst (Absent (number v'.file uw.new_metadata_offset_0 p)) (sym nv.gives_up) (
            All-numbers_at (λ k. k ≢ number v'.file uw.new_metadata_offset_0 p) (OnWay nv.way)
              v.file r (way_places o) on_way
              (λ q on_q nz e.
                rerouted-gone nv.way nv.distinct v.file r new-FreshWay old.unique p q on_q.0 on_q.1
                  nz (sym (nv.tree p) ∙ sym e)));
        gone_later = tt;
        one_root = nv.one_root;
      }

  -- An earlier write stays linked.
  earlier-Link :
      (t : ℕ) (w : UncommittedWrite) (ws : List UncommittedWrite)
      → Linked v t (w ∷ ws)
      → last_root w.new_metadata_offset_0 ws ≡ r
      → Link v'.file t w (ws ++ uw ∷ [])
  earlier-Link t w ws h e =
      let link = h.1 in
      let moved = Link-moved v v' nv.kept t w ws h in
      let used : All (Used v) w.to_free =
        All-map (OfTree v.file t) (Used v)
          (λ n of_tree.
            subst (Used v) of_tree.1 (h.0.in_use of_tree.0 (λ z. of_tree.2 (sym of_tree.1 ∙ z))))
          w.to_free link.of_old in
      let missing : Missing v.file w.to_free r = subst (Missing v.file w.to_free) e (
        last-All (Missing v.file w.to_free) w.new_metadata_offset_0 ws link.gone link.gone_later) in
      record {
        of_old = moved.of_old;
        distinct = moved.distinct;
        gone = moved.gone;
        gone_later =
            All-append (λ x. Missing v'.file w.to_free x.new_metadata_offset_0) ws (uw ∷ [])
              moved.gone_later (new-Missing w.to_free used missing, tt);
        one_root = moved.one_root;
      }

  Linked-append :
      (t : ℕ) (ws : List UncommittedWrite)
      → Linked v t ws
      → last_root t ws ≡ r
      → Linked v' t (ws ++ uw ∷ [])
  Linked-append t [] h e = (
    Rooted-moved v v' nv.kept [] kept_in_use t (λ p. tt) h,
    subst (λ x. Link v'.file x uw []) (sym e) new-Link,
    new-Rooted,
  )
  Linked-append t (w ∷ ws) h e = (
    Rooted-moved v v' nv.kept [] kept_in_use t (λ p. tt) h.0,
    earlier-Link t w ws h e,
    Linked-append w.new_metadata_offset_0 ws h.2 e,
  )

pub assigned :
    (m : ℕ → Option UncommittedWrite) (t : ℕ) (x : Option UncommittedWrite) → assign m t x t ≡ x
unfolding assign
assigned m t x = ground arith

assigned_ne :
    (m : ℕ → Option UncommittedWrite) (t k : ℕ) (x : Option UncommittedWrite)
    → k ≢ t
    → assign m t x k ≡ m k
unfolding assign
assigned_ne m t k x h = ground (arith, h)

-- The volume with the new version is consistent.
pub NewVersion-Consistent :
    (v v' : Volume) (o : ℕ) (buf : Block) (uw : UncommittedWrite) (uws : List UncommittedWrite)
    → Consistent v uws
    → NewVersion v
        (suc (v.last_committed + length uws))
        (last_root (v.first_level_blocks 0) uws)
        o
        buf
        uw
        v'
    → Consistent v' (uws ++ uw ∷ [])
NewVersion-Consistent v v' o buf uw uws con nv =
    let r = last_root (v.first_level_blocks 0) uws in
    let s = suc (v.last_committed + length uws) in
    let m = assign v.uncommitted_writes s (some uw) in
    let stored : Stored m (suc v.last_committed) (uws ++ uw ∷ []) =
      Stored-append m (suc v.last_committed) uws uw
        (Stored-assign v.uncommitted_writes s (some uw) (suc v.last_committed) uws (omega arith)
          con.stored)
        (ap m (omega arith) ∙ assigned v.uncommitted_writes s (some uw)) in
    record {
      sane = nv.sane;
      none_committed =
          ap (λ f. f v'.last_committed) nv.uncommitted
          ∙ ap m nv.last
          ∙ assigned_ne v.uncommitted_writes s v.last_committed (some uw)
              (λ e. absurd (omega (arith, e)))
          ∙ con.none_committed;
      stored =
          subst (λ k. Stored v'.uncommitted_writes (suc k) (uws ++ uw ∷ [])) (sym nv.last)
            (subst (λ f. Stored f (suc v.last_committed) (uws ++ uw ∷ [])) (sym nv.uncommitted)
              stored);
      linked =
          subst (λ f. Linked v' (f 0) (uws ++ uw ∷ [])) (sym nv.roots)
            (Linked-append v v' s o r buf uw nv
              (last-Rooted v (v.first_level_blocks 0) uws con.linked) (v.first_level_blocks 0) uws
              con.linked refl);
    }
