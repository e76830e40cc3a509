-- ===== src/Master/Chain/Positions.antt =====
-- A list seen from one of its places: the nodes before it, nearest first, and those after it.
use chained_block_storage.Base.{
  ℕ, ◌+◌, ◌≡◌, refl, ap, ◌∙◌, Bool, true, false, not, List, [], ◌∷◌, arith, ◌↔◌,
}
use chained_block_storage.Protocol.{State}
use chained_block_storage.Master.Nodes.{Node, remove, set_state, points_at}
use chained_block_storage.Master.Chain.{count, is_nonempty, first, last, role, Follows}

-- The whole list.
unfoldable pub rewind : List ℕ → List ℕ → List ℕ
rewind [] after = after
rewind (b ∷ before) after = rewind before (b ∷ after)

-- The nodes before the place are in their states, where `a` says if nodes stand after them.
abbrev pub Leads : (ℕ → Node) → Bool → List ℕ → Type 0
Leads node a [] = Unit
Leads node a (n ∷ ns) = ((node n).state ≡ role (is_nonempty ns) a) × Leads node true ns

pub count-rewind :
    (n : ℕ) (before after : List ℕ) → count n (rewind before after) ≡ count n before + count n after
unfolding count rewind
count-rewind n [] after = omega arith
count-rewind n (b ∷ before) after = ground (arith, count-rewind n before (b ∷ after))

pub Follows-rewind :
    (node : ℕ → Node) (before after : List ℕ)
    → Follows node false (rewind before after)
      ↔ (Leads node (is_nonempty after) before × Follows node (is_nonempty before) after)
unfolding rewind
Follows-rewind node [] after = (λ f. (tt, f), λ f. f.1)
Follows-rewind node (b ∷ before) after =
    let (there, back) = Follows-rewind node before (b ∷ after) in
    (λ f. let (l, g) = there f in ((g.0, l), g.1), λ f. back (f.0.1, (f.0.0, f.1)))

pub last-rewind :
    (before : List ℕ) (n : ℕ) (after : List ℕ) → last (rewind before (n ∷ after)) ≡ last (n ∷ after)
unfolding rewind last
last-rewind [] n after = refl
last-rewind (b ∷ before) n after = last-rewind before b (n ∷ after)

pub first-rewind :
    (b : ℕ) (before after : List ℕ) → first (rewind (b ∷ before) after) ≡ last (b ∷ before)
unfolding rewind last
first-rewind b [] after = refl
first-rewind b (c ∷ before) after = first-rewind c before (b ∷ after)

remove_absent : (n : ℕ) (ks : List ℕ) → count n ks ≡ 0 → remove n ks ≡ ks
unfolding remove count
remove_absent n [] h = refl
remove_absent n (k ∷ ks) h = ground (arith, remove_absent n ks)

remove_after :
    (n : ℕ) (before after : List ℕ)
    → count n before ≡ 0
    → remove n (rewind before after) ≡ rewind before (remove n after)
unfolding rewind count remove
remove_after n [] after h = refl
remove_after n (b ∷ before) after h = ground (arith, remove_after n before (b ∷ after))

-- A node leaves its place.
pub remove-rewind :
    (n : ℕ) (before after : List ℕ)
    → count n before ≡ 0
    → count n after ≡ 0
    → remove n (rewind before (n ∷ after)) ≡ rewind before after
remove-rewind n before after h k =
    remove_after n before (n ∷ after) h
    ∙ ap (rewind before) (unfold remove in ground (arith, remove_absent n after k))

points_at_absent : (n : ℕ) (ks : List ℕ) → count n ks ≡ 0 → points_at (last ks) n ≡ false
unfolding points_at last count
points_at_absent n [] h = refl
points_at_absent n (k ∷ []) h = ground arith
points_at_absent n (k ∷ j ∷ ks) h = points_at_absent n (j ∷ ks) (ground arith)

-- The list is not at its end at a node that stands before others.
pub points_at-last :
    (n : ℕ) (ns : List ℕ) → count n ns ≡ 0 → points_at (last (n ∷ ns)) n ≡ not (is_nonempty ns)
unfolding points_at last count
points_at-last n [] h = ground arith
points_at-last n (k ∷ ns) h = points_at_absent n (k ∷ ns) h

pub Follows-set_state :
    (node : ℕ → Node) (n : ℕ) (s : State) (b : Bool) (ns : List ℕ)
    → count n ns ≡ 0
    → Follows node b ns
    → Follows (set_state node n s) b ns
unfolding count set_state
Follows-set_state node n s b [] h f = tt
Follows-set_state node n s b (k ∷ ns) h f =
    (ground arith, Follows-set_state node n s true ns (ground arith) f.1)

pub Leads-set_state :
    (node : ℕ → Node) (n : ℕ) (s : State) (a : Bool) (ns : List ℕ)
    → count n ns ≡ 0
    → Leads node a ns
    → Leads (set_state node n s) a ns
unfolding count set_state
Leads-set_state node n s a [] h f = tt
Leads-set_state node n s a (k ∷ ns) h f =
    (ground arith, Leads-set_state node n s true ns (ground arith) f.1)
