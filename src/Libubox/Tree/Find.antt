-- ===== src/Libubox/Tree/Find.antt =====
-- What `avl_find` gives after each change of a tree.
use libubus_jni.Prelude.{◌≡◌, refl, List, [], ◌∷◌, none, some, arith, ◌≢◌}
use libubus_jni.Libubox.Tree.{Ord, find, place, delete, update}
use mathlib.Core.Option

module _ {ℓ κ} {K : Type ℓ} {V : Type κ} ⦃o : Ord K⦄ where
  pub find-update_self :
      (k : K) (f : V → V) (t : List (K × V)) → find k (update k f t) ≡ Option.map f (find k t)
  unfolding find update
  find-update_self k f [] = refl
  find-update_self k f ((j, v) ∷ t) = ground (arith, find-update_self k f t)

  pub find-update_ne :
      (k j : K) (f : V → V) (t : List (K × V)) → j ≢ k → find j (update k f t) ≡ find j t
  unfolding find update
  find-update_ne k j f [] h = refl
  find-update_ne k j f ((i, v) ∷ t) h =
      ground (arith, find-update_ne k j f t h, o.eq_of_cmp k i, o.eq_of_cmp j i)

  pub find-place_self :
      (k : K) (v : V) (t : List (K × V)) → find k t ≡ none → find k (place k v t) ≡ some v
  unfolding find place
  find-place_self k v [] h = ground (arith, o.cmp_refl k)
  find-place_self k v ((j, w) ∷ t) h = ground (arith, find-place_self k v t, o.cmp_refl k)

  pub find-place_ne : (k j : K) (v : V) (t : List (K × V)) → j ≢ k → find j (place k v t) ≡ find j t
  unfolding find place
  find-place_ne k j v [] h = ground (arith, o.eq_of_cmp j k)
  find-place_ne k j v ((i, w) ∷ t) h = ground (arith, find-place_ne k j v t h, o.eq_of_cmp j k)

  pub find-delete_ne : (k j : K) (t : List (K × V)) → j ≢ k → find j (delete k t) ≡ find j t
  unfolding find delete
  find-delete_ne k j [] h = refl
  find-delete_ne k j ((i, w) ∷ t) h =
      ground (arith, find-delete_ne k j t h, o.eq_of_cmp j i, o.eq_of_cmp k i)
