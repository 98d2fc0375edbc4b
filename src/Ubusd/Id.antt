-- ===== src/Ubusd/Id.antt =====
-- ubus/ubusd_id.c and ubusd_id.h: ids in their tree.
pub mod Fresh
use libubus_jni.Prelude.{ℕ, List, [], ◌∷◌, Option, none, some, ◌==◌, if◌then◌else◌}
use libubus_jni.Libubox.Tree.{insert, id_ord}

module _ {ℓ} {V : Type ℓ} where
  -- The do-while loop of `ubus_alloc_id`: one round for each value that the random source gives.
  -- In a do-while loop `continue` goes to the loop's condition, here `avl_insert(…) != 0`, so a
  -- value below UBUS_SYSTEM_OBJECT_MAX is inserted as any other is.
  unfoldable pub draw_id : V → List (ℕ × V) → List ℕ → Option (ℕ × List (ℕ × V)) × List ℕ
  draw_id v t [] = (none, [])
  draw_id v t (r ∷ rs) = elim (insert r v t) [
    | some t' ↦ (some (r, t'), rs)
    | none ↦ draw_id v t rs
  ]

  -- `ubus_alloc_id`: the id and the new tree, or `none` for false; and what is left of the random
  -- values.
  unfoldable pub alloc_id : ℕ → V → List (ℕ × V) → List ℕ → Option (ℕ × List (ℕ × V)) × List ℕ
  unfolding draw_id
  alloc_id val v t random =
      if val == 0
      then draw_id v t random
      else (elim (insert val v t) [ some t' ↦ some (val, t') | none ↦ none ], random)
