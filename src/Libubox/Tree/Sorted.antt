-- ===== src/Libubox/Tree/Sorted.antt =====
-- The order of the keys of a tree, and that insertion and deletion keep it.
use libubus_jni.Prelude.{◌≡◌, refl, ◌≢◌, List, [], ◌∷◌, none, Ordering, arith}
use libubus_jni.Libubox.Tree.{Ord, find, place, delete, update}

module _ {ℓ κ} {K : Type ℓ} {V : Type κ} ⦃o : Ord K⦄ where
  -- In a tree that allows duplicates: the keys stand in order, none in front of the given one.
  abbrev pub SortedFrom : K → List (K × V) → Type 0
  SortedFrom p [] = Unit
  SortedFrom p ((k, v) ∷ t) = (o.cmp p k ≢ Ordering.gt) × SortedFrom k t

  abbrev pub Sorted : List (K × V) → Type 0
  Sorted [] = Unit
  Sorted ((k, v) ∷ t) = SortedFrom k t

  -- In a tree without: they also differ.
  abbrev pub StrictFrom : K → List (K × V) → Type 0
  StrictFrom p [] = Unit
  StrictFrom p ((k, v) ∷ t) = (o.cmp p k ≡ Ordering.lt) × StrictFrom k t

  abbrev pub Strict : List (K × V) → Type 0
  Strict [] = Unit
  Strict ((k, v) ∷ t) = StrictFrom k t

module _ {ℓ} {K : Type ℓ} ⦃o : Ord K⦄ where
  pub ne_gt_of_ne_lt : (k j : K) → o.cmp k j ≢ Ordering.lt → o.cmp j k ≢ Ordering.gt
  ne_gt_of_ne_lt k j h = go (o.cmp k j) refl
    where
      go : (c : Ordering) → o.cmp k j ≡ c → o.cmp j k ≢ Ordering.gt
      go Ordering.lt e = absurd (h e)
      go Ordering.eq e = rw (o.eq_of_cmp k j e, o.cmp_refl j) (ground arith)
      go Ordering.gt e = rw (o.lt_of_gt k j e) (ground arith)

  pub le_trans :
      (i k j : K) → o.cmp i k ≢ Ordering.gt → o.cmp k j ≢ Ordering.gt → o.cmp i j ≢ Ordering.gt
  le_trans i k j h g = go (o.cmp i k) refl
    where
      go : (c : Ordering) → o.cmp i k ≡ c → o.cmp i j ≢ Ordering.gt
      go Ordering.lt e = rw (o.lt_trans i k j e g) (ground arith)
      go Ordering.eq e = rw (o.eq_of_cmp i k e) g
      go Ordering.gt e = absurd (h e)

module _ {ℓ κ} {K : Type ℓ} {V : Type κ} ⦃o : Ord K⦄ where
  pub Strict-Sorted : (p : K) (t : List (K × V)) → StrictFrom p t → SortedFrom p t
  Strict-Sorted p [] h = tt
  Strict-Sorted p ((k, v) ∷ t) h = (ground arith, Strict-Sorted k t h.1)

  pub SortedFrom-weaken :
      (p q : K) (t : List (K × V)) → o.cmp p q ≢ Ordering.gt → SortedFrom q t → SortedFrom p t
  SortedFrom-weaken p q [] h s = tt
  SortedFrom-weaken p q ((k, v) ∷ t) h s = (le_trans p q k h s.0, s.1)

  pub StrictFrom-weaken :
      (p q : K) (t : List (K × V)) → o.cmp p q ≡ Ordering.lt → StrictFrom q t → StrictFrom p t
  StrictFrom-weaken p q [] h s = tt
  StrictFrom-weaken p q ((k, v) ∷ t) h s = (o.lt_trans p q k h (ground arith), s.1)

  pub place-SortedFrom :
      (p k : K) (v : V) (t : List (K × V))
      → o.cmp p k ≢ Ordering.gt
      → SortedFrom p t
      → SortedFrom p (place k v t)
  unfolding place
  place-SortedFrom p k v [] h s = (h, tt)
  place-SortedFrom p k v ((j, w) ∷ t) h s =
      go (o.cmp k j) refl (λ g. place-SortedFrom j k v t g s.1)
    where
      go :
          (c : Ordering)
          → o.cmp k j ≡ c
          → (o.cmp j k ≢ Ordering.gt → SortedFrom j (place k v t))
          → SortedFrom p (place k v ((j, w) ∷ t))
      go Ordering.lt e ih = rw (e, place) (h, (rw e (ground arith), s.1))
      go Ordering.eq e ih = rw (e, place) (s.0, ih (ne_gt_of_ne_lt k j (rw e (ground arith))))
      go Ordering.gt e ih = rw (e, place) (s.0, ih (ne_gt_of_ne_lt k j (rw e (ground arith))))

  pub place-StrictFrom :
      (p k : K) (v : V) (t : List (K × V))
      → o.cmp p k ≡ Ordering.lt
      → StrictFrom p t
      → find k t ≡ none
      → StrictFrom p (place k v t)
  unfolding place find
  place-StrictFrom p k v [] h s f = (h, tt)
  place-StrictFrom p k v ((j, w) ∷ t) h s f =
      ground (arith, o.lt_of_gt k j, place-StrictFrom j k v t)

  pub update-StrictFrom :
      (p k : K) (f : V → V) (t : List (K × V)) → StrictFrom p t → StrictFrom p (update k f t)
  unfolding update
  update-StrictFrom p k f [] s = tt
  update-StrictFrom p k f ((j, w) ∷ t) s = ground (arith, update-StrictFrom j k f t)

  pub delete-StrictFrom : (p k : K) (t : List (K × V)) → StrictFrom p t → StrictFrom p (delete k t)
  unfolding delete
  delete-StrictFrom p k [] s = tt
  delete-StrictFrom p k ((j, w) ∷ t) s =
      ground (arith, delete-StrictFrom j k t, StrictFrom-weaken p j t)

  pub place-Strict :
      (k : K) (v : V) (t : List (K × V)) → Strict t → find k t ≡ none → Strict (place k v t)
  unfolding place find
  place-Strict k v [] s f = tt
  place-Strict k v ((j, w) ∷ t) s f = ground (arith, o.lt_of_gt k j, place-StrictFrom j k v t)

  pub update-Strict : (k : K) (f : V → V) (t : List (K × V)) → Strict t → Strict (update k f t)
  unfolding update
  update-Strict k f [] s = tt
  update-Strict k f ((j, w) ∷ t) s = ground (arith, update-StrictFrom j k f t)

  StrictFrom-Strict : (p : K) (t : List (K × V)) → StrictFrom p t → Strict t
  StrictFrom-Strict p [] s = tt
  StrictFrom-Strict p ((j, w) ∷ t) s = s.1

  pub delete-Strict : (k : K) (t : List (K × V)) → Strict t → Strict (delete k t)
  unfolding delete
  delete-Strict k [] s = tt
  delete-Strict k ((j, w) ∷ t) s = ground (arith, delete-StrictFrom j k t, StrictFrom-Strict j t)

  find_behind : (k : K) (t : List (K × V)) → StrictFrom k t → find k t ≡ none
  unfolding find
  find_behind k [] s = refl
  find_behind k ((j, w) ∷ t) s =
      ground (arith, s.0, find_behind k t (StrictFrom-weaken k j t s.0 s.1))

  -- Behind a deletion the key is gone.
  pub find-delete_self : (k : K) (t : List (K × V)) → Strict t → find k (delete k t) ≡ none
  unfolding find delete
  find-delete_self k [] s = refl
  find-delete_self k ((j, w) ∷ t) s =
      go (o.cmp k j) refl (find-delete_self k t (StrictFrom-Strict j t s))
    where
      go :
          (c : Ordering)
          → o.cmp k j ≡ c
          → find k (delete k t) ≡ none
          → find k (delete k ((j, w) ∷ t)) ≡ none
      go Ordering.lt e ih = ground (arith, e, ih)
      go Ordering.eq e ih = rw (e, delete) (rw (o.eq_of_cmp k j e) (find_behind j t s))
      go Ordering.gt e ih = ground (arith, e, ih)

  pub SortedFrom-Sorted : (p : K) (t : List (K × V)) → SortedFrom p t → Sorted t
  SortedFrom-Sorted p [] s = tt
  SortedFrom-Sorted p ((j, w) ∷ t) s = s.1

  pub place-Sorted : (k : K) (v : V) (t : List (K × V)) → Sorted t → Sorted (place k v t)
  unfolding place
  place-Sorted k v [] s = tt
  place-Sorted k v ((j, w) ∷ t) s = go (o.cmp k j) refl
    where
      go : (c : Ordering) → o.cmp k j ≡ c → Sorted (place k v ((j, w) ∷ t))
      go Ordering.lt e = rw (e, place) (rw e (ground arith), s)
      go Ordering.eq e =
          rw (e, place) (place-SortedFrom j k v t (ne_gt_of_ne_lt k j (rw e (ground arith))) s)
      go Ordering.gt e =
          rw (e, place) (place-SortedFrom j k v t (ne_gt_of_ne_lt k j (rw e (ground arith))) s)
