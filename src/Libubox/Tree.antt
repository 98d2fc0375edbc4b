-- ===== src/Libubox/Tree.antt =====
-- The AVL trees of libubox (avl.h) as ubusd sees them: an avl_tree threads its nodes on a list in
-- the order of their keys, which the traversal macros walk, and `avl_find`, `avl_insert` and
-- `avl_delete` keep that list. The balancing below the list is not modelled here.
pub mod Find
pub mod Sorted
use libubus_jni.Prelude.{ℕ, ◌≡◌, ◌≢◌, List, [], ◌∷◌, Option, none, some, Ordering, compare, arith}
use libubus_jni.Libubox.Text.{
  CString, strcmp, strcmp_refl, eq_of_strcmp, strcmp-lt_of_gt, strcmp-lt_trans,
}

-- The comparison function of a tree.
pub record Ord {ℓ} (K : Type ℓ) : Type ℓ where
  pub cmp : K → K → Ordering
  pub cmp_refl : (k : K) → cmp k k ≡ Ordering.eq
  pub eq_of_cmp : (k j : K) → cmp k j ≡ Ordering.eq → k ≡ j
  pub lt_of_gt : (k j : K) → cmp k j ≡ Ordering.gt → cmp j k ≡ Ordering.lt
  pub lt_trans : (i k j : K) → cmp i k ≡ Ordering.lt → cmp k j ≢ Ordering.gt → cmp i j ≡ Ordering.lt

pub compare_refl : (n : ℕ) → compare n n ≡ Ordering.eq
compare_refl n = ground arith

pub eq_of_compare : (n m : ℕ) → compare n m ≡ Ordering.eq → n ≡ m
eq_of_compare n m h = ground arith

pub compare-lt_of_gt : (n m : ℕ) → compare n m ≡ Ordering.gt → compare m n ≡ Ordering.lt
compare-lt_of_gt n m h = ground arith

pub compare-lt_trans :
    (i n m : ℕ) → compare i n ≡ Ordering.lt → compare n m ≢ Ordering.gt → compare i m ≡ Ordering.lt
compare-lt_trans i n m h k = ground arith

-- `ubus_cmp_id`
instance abbrev pub id_ord : Ord ℕ
id_ord = record {
  cmp = compare;
  cmp_refl = compare_refl;
  eq_of_cmp = eq_of_compare;
  lt_of_gt = compare-lt_of_gt;
  lt_trans = compare-lt_trans;
}

-- `avl_strcmp`
instance abbrev pub string_ord : Ord CString
string_ord = record {
  cmp = strcmp;
  cmp_refl = strcmp_refl;
  eq_of_cmp = eq_of_strcmp;
  lt_of_gt = strcmp-lt_of_gt;
  lt_trans = strcmp-lt_trans;
}

module _ {ℓ κ} {K : Type ℓ} {V : Type κ} ⦃o : Ord K⦄ where
  -- `avl_find`
  unfoldable pub find : K → List (K × V) → Option V
  find k [] = none
  find k ((j, v) ∷ t) = elim (o.cmp k j) [ Ordering.eq ↦ some v | _ ↦ find k t ]

  -- The place that `avl_insert` gives a node: behind every smaller key and every equal one.
  unfoldable pub place : K → V → List (K × V) → List (K × V)
  place k v [] = (k, v) ∷ []
  place k v ((j, w) ∷ t) = elim (o.cmp k j) [
    | Ordering.lt ↦ (k, v) ∷ (j, w) ∷ t
    | _ ↦ (j, w) ∷ place k v t
  ]

  -- `avl_insert` on a tree with no duplicates: `none` is its result -1.
  unfoldable pub insert : K → V → List (K × V) → Option (List (K × V))
  insert k v t = elim (find k t) [ none ↦ some (place k v t) | some _ ↦ none ]

  -- `avl_delete` of the node that `avl_find` gives for the key.
  unfoldable pub delete : K → List (K × V) → List (K × V)
  delete k [] = []
  delete k ((j, v) ∷ t) = elim (o.cmp k j) [ Ordering.eq ↦ t | _ ↦ (j, v) ∷ delete k t ]

  -- A write through the pointer that `avl_find` gives for the key.
  unfoldable pub update : K → (V → V) → List (K × V) → List (K × V)
  update k f [] = []
  update k f ((j, v) ∷ t) = elim (o.cmp k j) [
    | Ordering.eq ↦ (j, f v) ∷ t
    | _ ↦ (j, v) ∷ update k f t
  ]

  -- `avl_find_ge_element`: the list from the element on, empty for NULL.
  unfoldable pub find_ge : K → List (K × V) → List (K × V)
  find_ge k [] = []
  find_ge k ((j, v) ∷ t) = elim (o.cmp k j) [ Ordering.gt ↦ find_ge k t | _ ↦ (j, v) ∷ t ]
