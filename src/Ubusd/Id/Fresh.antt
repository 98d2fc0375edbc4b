-- ===== src/Ubusd/Id/Fresh.antt =====
-- What `ubus_alloc_id` gives.
use libubus_jni.Prelude.{ℕ, ◌≡◌, refl, List, [], ◌∷◌, ◌++◌, none, some, arith}
use libubus_jni.Libubox.Tree.{find, place, insert, id_ord, Ord}
use libubus_jni.Ubusd.Id.{draw_id, alloc_id}

-- `avl_insert` succeeds exactly on a key that the tree has not.
pub insert-fresh {ℓ κ} :
    {K : Type ℓ} {V : Type κ} ⦃o : Ord K⦄ (k : K) (v : V) (t : List (K × V)) {t' : List (K × V)}
    → insert k v t ≡ some t'
    → (find k t ≡ none) × (t' ≡ place k v t)
unfolding insert
insert-fresh k v t h = ground arith

module _ {ℓ} {V : Type ℓ} (v : V) (t : List (ℕ × V)) where
  draw_id-fresh :
      (random : List ℕ) {id : ℕ} {t' : List (ℕ × V)}
      → (draw_id v t random).0 ≡ some (id, t')
      → (find id t ≡ none) × (t' ≡ place id v t)
  unfolding draw_id insert
  draw_id-fresh [] h = ground arith
  draw_id-fresh (r ∷ rs) {id} {t'} h = ground (arith, draw_id-fresh rs {id = id} {t' = t'})

  pub alloc_id-fresh :
      (val : ℕ) (random : List ℕ) {id : ℕ} {t' : List (ℕ × V)}
      → (alloc_id val v t random).0 ≡ some (id, t')
      → (find id t ≡ none) × (t' ≡ place id v t)
  unfolding alloc_id insert
  alloc_id-fresh val random {id} {t'} h = ground (arith, draw_id-fresh random {id = id} {t' = t'})

  -- Each of the values is the id of an entry.
  abbrev pub AllTaken : List ℕ → Type ℓ
  AllTaken [] = Unit
  AllTaken (r ∷ rs) = ((w : V) × (find r t ≡ some w)) × AllTaken rs

  -- The first value that is no id yet is taken.
  alloc_id-first :
      (busy : List ℕ) (r : ℕ) (rest : List ℕ)
      → AllTaken busy
      → find r t ≡ none
      → alloc_id 0 v t (busy ++ (r ∷ rest)) ≡ (some (r, place r v t), rest)
  unfolding alloc_id draw_id insert
  alloc_id-first [] r rest h f = rw (f, draw_id)
  alloc_id-first (b ∷ busy) r rest h f = rw (h.0.1, draw_id) (alloc_id-first busy r rest h.1 f)

  -- Where all values are ids in use, the read that fails ends it.
  alloc_id-fails : (busy : List ℕ) → AllTaken busy → alloc_id 0 v t busy ≡ (none, [])
  unfolding alloc_id draw_id insert
  alloc_id-fails [] h = refl
  alloc_id-fails (b ∷ busy) h = rw (h.0.1, draw_id) (alloc_id-fails busy h.1)

  -- Asked for no particular id, with values of the random source that are all in use before one
  -- that is not, `ubus_alloc_id` takes this one, also if it is below UBUS_SYSTEM_OBJECT_MAX, files
  -- the entry under it and leaves the later values; if the values that are in use are all that the
  -- source gives before a read fails, it fails.
  pub alloc_id-draws :
      (busy : List ℕ) (r : ℕ) (rest : List ℕ)
      → AllTaken busy
      → find r t ≡ none
      → (alloc_id 0 v t (busy ++ (r ∷ rest)) ≡ (some (r, place r v t), rest))
        × (alloc_id 0 v t busy ≡ (none, []))
  alloc_id-draws busy r rest h f = (alloc_id-first busy r rest h f, alloc_id-fails busy h)
