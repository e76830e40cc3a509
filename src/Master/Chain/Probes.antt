-- ===== src/Master/Chain/Probes.antt =====
-- The loop that looks for a node which answers, on one side of a failed node in the middle.
use chained_block_storage.Base.{
  ℕ, ◌+◌, ◌≤◌, ◌≡◌, ap, ◌∙◌, inl, inr, true, false, not, Option, List, [], ◌∷◌, ◌++◌, if◌then◌else◌,
  arith, Bool-cases,
}
use chained_block_storage.Protocol.{is_ok}
use chained_block_storage.Master.Nodes.{remove, remove_all, points_at}
use chained_block_storage.Master.Failure.{Answers, Probe, probe, alive, endpoint_failed}
use chained_block_storage.Master.Chain.{count, is_nonempty, last}
use chained_block_storage.Master.Chain.Positions.{points_at-last}
use chained_block_storage.Master.Chain.Repair.{remove_all-append}

-- The nodes ahead from the first on that answers a heartbeat.
unfoldable pub responding : Answers → List ℕ → List ℕ
responding answers [] = []
responding answers (n ∷ ahead) =
    if is_ok (answers.heartbeat n) then n ∷ ahead else responding answers ahead

abbrev pub Once : List ℕ → List ℕ → Type 0
Once before after = (k : ℕ) → count k before + count k after ≤ 1

probe-cons :
    (answers : Answers) (endpoint : Option ℕ) (passed : List ℕ) (n : ℕ) (ahead drop_list : List ℕ)
    → points_at endpoint n ≡ not (is_nonempty ahead)
    → probe answers endpoint passed (n ∷ ahead) drop_list ≡ (
        if is_ok (answers.heartbeat n)
        then alive n drop_list
        else if is_nonempty ahead
        then probe answers endpoint (n ∷ passed) ahead (drop_list ++ n ∷ [])
        else endpoint_failed passed n ahead)
unfolding probe
probe-cons answers endpoint passed n [] drop_list h = rw h
probe-cons answers endpoint passed n (k ∷ ahead) drop_list h = rw h

Once-front :
    (n : ℕ) (before after : List ℕ)
    → Once before (n ∷ after)
    → (count n before ≡ 0) × (count n after ≡ 0)
unfolding count
Once-front n before after o = (ground (arith, o n), ground (arith, o n))

Once-next : (n : ℕ) (before after : List ℕ) → Once before (n ∷ after) → Once before after
unfolding count
Once-next n before after o k = ground (arith, o k)

remove_next :
    (n : ℕ) (drop_list list : List ℕ)
    → remove_all (drop_list ++ n ∷ []) list ≡ remove n (remove_all drop_list list)
unfolding remove_all
remove_next n drop_list list = remove_all-append drop_list (n ∷ []) list

-- The loop in one direction. `side x` is the list when `x` is left ahead; `whole passed x` is the
-- whole list, when the loop has passed `passed`.
module _ (answers : Answers) (list : List ℕ) (endpoint : Option ℕ) (other : List ℕ)
    (side : List ℕ → List ℕ) (whole : List ℕ → List ℕ → List ℕ) (InState : List ℕ → Type 0) where
  -- Either a node answers, and the list without those dropped goes on from it, or none does, the
  -- endpoint included.
  pub data Probed (ahead : List ℕ) (r : Probe) : Type 0 where
    answered :
        (d : ℕ) (ds drop_list : List ℕ)
        → r ≡ alive d drop_list
        → responding answers ahead ≡ d ∷ ds
        → remove_all drop_list list ≡ side (d ∷ ds)
        → endpoint ≡ last (d ∷ ds)
        → InState (d ∷ ds)
        → Once other (d ∷ ds)
        → Probed ahead r
    endpoint_too :
        (p : ℕ) (passed : List ℕ) (t : ℕ)
        → r ≡ endpoint_failed (p ∷ passed) t []
        → list ≡ whole (p ∷ passed) (t ∷ [])
        → responding answers ahead ≡ []
        → Probed ahead r

  further :
      {ahead ahead' : List ℕ} {r r' : Probe}
      → responding answers ahead ≡ responding answers ahead'
      → r ≡ r'
      → Probed ahead' r'
      → Probed ahead r
  further a e (answered d ds drop_list e' a' left end f o) =
      answered d ds drop_list (e ∙ e') (a ∙ a') left end f o
  further a e (endpoint_too p passed t e' place a') =
      endpoint_too p passed t (e ∙ e') place (a ∙ a')

  module _
      (side-remove : (n : ℕ) (x : List ℕ)
        → count n other ≡ 0
        → count n x ≡ 0
        → remove n (side (n ∷ x)) ≡ side x)
      (whole-shift : (n : ℕ) (passed x : List ℕ) → whole passed (n ∷ x) ≡ whole (n ∷ passed) x)
      (InState-tail : (n : ℕ) (x : List ℕ) → InState (n ∷ x) → InState x) where
    pub probe-Probed :
        (n : ℕ) (ns : List ℕ) (p : ℕ) (passed drop_list : List ℕ)
        → remove_all drop_list list ≡ side (n ∷ ns)
        → list ≡ whole (p ∷ passed) (n ∷ ns)
        → endpoint ≡ last (n ∷ ns)
        → InState (n ∷ ns)
        → Once other (n ∷ ns)
        → Probed (n ∷ ns) (probe answers endpoint (p ∷ passed) (n ∷ ns) drop_list)
    unfolding responding
    probe-Probed n [] p passed drop_list left place end f o =
        let here : points_at endpoint n ≡ true =
          rw end (points_at-last n [] (Once-front n other [] o).1) in
        let step = probe-cons answers endpoint (p ∷ passed) n [] drop_list here in
        elim (Bool-cases (is_ok (answers.heartbeat n))) [
          | inl live ↦ answered n [] drop_list (step ∙ rw live) (rw live) left end f o
          | inr dead ↦ endpoint_too p passed n (step ∙ rw dead) place (rw dead)
        ]
    probe-Probed n (k ∷ ns) p passed drop_list left place end f o =
        let (c, c') = Once-front n other (k ∷ ns) o in
        let here : points_at endpoint n ≡ false = rw end (points_at-last n (k ∷ ns) c') in
        let step = probe-cons answers endpoint (p ∷ passed) n (k ∷ ns) drop_list here in
        let next =
          probe-Probed k ns n (p ∷ passed) (drop_list ++ n ∷ [])
            (remove_next n drop_list list ∙ ap (remove n) left ∙ side-remove n (k ∷ ns) c c')
            (place ∙ whole-shift n (p ∷ passed) (k ∷ ns)) (unfold last in end)
            (InState-tail n (k ∷ ns) f) (Once-next n other (k ∷ ns) o) in
        elim (Bool-cases (is_ok (answers.heartbeat n))) [
          | inl live ↦ answered n (k ∷ ns) drop_list (step ∙ rw live) (rw live) left end f o
          | inr dead ↦ further (rw dead) (step ∙ rw dead) next
        ]
