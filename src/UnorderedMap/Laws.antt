-- ===== src/UnorderedMap/Laws.antt =====
-- The laws of an unordered map: what each change does to a search, and that keys stay distinct.
use chained_block_storage.Base.{◌≡◌, refl, ◌≢◌, none, some, [], ◌∷◌, All, ite, arith}
use chained_block_storage.UnorderedMap.{UnorderedMap, find, put, erase, IsDistinct}

module _ {K V : Type 0} (dec : Discrete K) where
  pub find-put :
      (j k : K) (v : V) (m : UnorderedMap K V)
      → find dec j (put dec k v m) ≡ ite (dec k j) (some v) (find dec j m)
  unfolding find put
  find-put j k v [] = refl
  find-put j k v ((i, w) ∷ m) = ground (arith, find-put j k v m)

  find_of_ne : (k : K) (m : UnorderedMap K V) → All (λ e. e.0 ≢ k) m → find dec k m ≡ none
  unfolding find
  find_of_ne k [] h = refl
  find_of_ne k ((i, w) ∷ m) h = ground (arith, find_of_ne k m h.1)

  pub find-erase :
      (j k : K) (m : UnorderedMap K V)
      → IsDistinct m
      → find dec j (erase dec k m) ≡ ite (dec k j) none (find dec j m)
  unfolding find erase
  find-erase j k [] d = ground arith
  find-erase j k ((i, w) ∷ m) d = ground (arith, find-erase j k m d.1, find_of_ne i m d.0)

  put-All_ne :
      (j k : K) (v : V) (m : UnorderedMap K V)
      → k ≢ j
      → All (λ e. e.0 ≢ j) m
      → All (λ e. e.0 ≢ j) (put dec k v m)
  unfolding put
  put-All_ne j k v [] h a = (h, tt)
  put-All_ne j k v ((i, w) ∷ m) h a = ground (arith, put-All_ne j k v m h a.1)

  pub put-IsDistinct :
      (k : K) (v : V) (m : UnorderedMap K V) → IsDistinct m → IsDistinct (put dec k v m)
  unfolding put
  put-IsDistinct k v [] d = (tt, tt)
  put-IsDistinct k v ((i, w) ∷ m) d = ground (arith, put-All_ne i k v m, put-IsDistinct k v m d.1)

  pub put-All :
      (P : K × V → Type 0) (k : K) (v : V) (m : UnorderedMap K V)
      → ((j : K) → P (j, v))
      → All P m
      → All P (put dec k v m)
  unfolding put
  put-All P k v [] h a = (h k, tt)
  put-All P k v ((i, w) ∷ m) h a = ground (arith, h i, put-All P k v m h a.1)

  pub erase-All :
      (P : K × V → Type 0) (k : K) (m : UnorderedMap K V) → All P m → All P (erase dec k m)
  unfolding erase
  erase-All P k [] a = tt
  erase-All P k ((i, w) ∷ m) a = ground (arith, erase-All P k m a.1)

  pub erase-IsDistinct : (k : K) (m : UnorderedMap K V) → IsDistinct m → IsDistinct (erase dec k m)
  unfolding erase
  erase-IsDistinct k [] d = tt
  erase-IsDistinct k ((i, w) ∷ m) d =
      ground (arith, erase-All (λ e. e.0 ≢ i) k m d.0, erase-IsDistinct k m d.1)

  pub All-find :
      (P : K × V → Type 0) (k : K) (v : V) (m : UnorderedMap K V)
      → All P m
      → find dec k m ≡ some v
      → P (k, v)
  unfolding find
  All-find P k v [] a h = absurd (ground arith)
  All-find P k v ((i, w) ∷ m) a h = ground (arith, All-find P k v m a.1)
