-- ===== src/Libubus/Registry/Roundtrip.antt =====
-- An object that is added and removed again (ubus/libubus-obj.c).
use libubus_jni.Prelude.{
  ℕ, ◌≡◌, ◌≢◌, refl, ap, ◌∙◌, arith, true, false, List, [], ◌∷◌, Option, none, some, ◌==◌, ◌⊎◌,
  Option-cases, inl, inr, ==_refl,
}
use libubus_jni.Libubox.Tree.{find, insert, place, id_ord}
use libubus_jni.Libubox.Tree.Find.{find-place_self}
use libubus_jni.Libubus.Object.{Object, Host, object}
use libubus_jni.Libubus.Registry.{
  Reply, set_id, is_in, insert_into, add_object_cb, each_reply, add_object, remove_node,
  remove_object_cb, remove_object,
}
use libubus_jni.Libubus.Registry.Keyed.{object-set_id_self}

remove_node-place :
    (a id : ℕ) (t : List (ℕ × ℕ)) → is_in a t ≡ false → remove_node a (place id a t) ≡ some t
unfolding remove_node place
remove_node-place a id [] n = rw (==_refl a) refl
remove_node-place a id ((k, b) ∷ t) n = ground (arith, ==_refl a, remove_node-place a id t)

remove_node-insert_into :
    (a id : ℕ) (t : List (ℕ × ℕ))
    → is_in a t ≡ false
    → find id t ≡ none
    → remove_node a (insert_into id a t) ≡ some t
unfolding insert_into insert
remove_node-insert_into a id t n f = rw (insert_into, insert, f) (remove_node-place a id t n)

pub find-insert_into_self :
    (id a : ℕ) (t : List (ℕ × ℕ)) → find id t ≡ none → find id (insert_into id a t) ≡ some a
unfolding insert_into insert
find-insert_into_self id a t f = rw (insert_into, insert, f) (find-place_self id a t f)

-- A reply with a type is for an object that has one.
abbrev pub FitsType : Reply → Object → Type 0
FitsType r o = (r.objtype ≡ none) ⊎ ((ty : ℕ) × (o.ty ≡ some ty))

-- The host behind a reply: the tree and the object.
pub record Has (t : List (ℕ × ℕ)) (a : ℕ) (o : Object) (r : Option Host) : Type 0 where
  pub host : Host
  pub result : r ≡ some host
  pub tree : host.objects ≡ t
  pub in_memory : object a host ≡ some o

pub add_object_cb-Has :
    (a id : ℕ) (r : Reply) (h : Host) (o p : Object)
    → object a h ≡ some o
    → object a (set_id a id h) ≡ some p
    → is_in a h.objects ≡ false
    → r.objid ≡ some id
    → FitsType r o
    → Has (insert_into id a h.objects) a p (add_object_cb a r h)
unfolding add_object_cb set_id object
add_object_cb-Has a id r h o p e q n i (inl z) =
    rw (i, e, n, z) (record { host = _; result = refl; tree = refl; in_memory = q })
add_object_cb-Has a id r h o p e q n i (inr (ty, z)) = elim (Option-cases r.objtype) [
  | inl y ↦ rw (i, e, n, y) (record { host = _; result = refl; tree = refl; in_memory = q })
  | inr (v, y) ↦ rw (i, e, n, y, z) (record { host = _; result = refl; tree = refl; in_memory = q })
]

remove_object_cb-Has :
    (a : ℕ) (r : Reply) (h : Host) (o p : Object) (t : List (ℕ × ℕ)) {id : ℕ}
    → object a h ≡ some o
    → object a (set_id a 0 h) ≡ some p
    → remove_node a h.objects ≡ some t
    → r.objid ≡ some id
    → Has t a p (remove_object_cb a r h)
unfolding remove_object_cb set_id object
remove_object_cb-Has a r h o p t e q n i = elim (Option-cases r.objtype) [
  | inl y ↦ rw (i, e, n, y) (record { host = _; result = refl; tree = refl; in_memory = q })
  | inr (v, y) ↦ elim (Option-cases o.ty) [
    | inl z ↦ rw (i, e, n, y, z) (record { host = _; result = refl; tree = refl; in_memory = q })
    | inr (ty, z) ↦
        rw (i, e, n, y, z) (record { host = _; result = refl; tree = refl; in_memory = q })
  ]
]

-- An object in memory that is not in the tree is added, and ubusd answers once with a free id that
-- is not 0, and with a type only if the object has one: `ubus_add_object` returns 0, the object
-- has the id and is filed under it. Removed again, with one answer that names an id, it has the id
-- 0, `ubus_remove_object` returns 0, and the tree is as before.
pub add_remove :
    (a id : ℕ) (r s : Reply) (h : Host) (o : Object) {k : ℕ}
    → object a h ≡ some o
    → is_in a h.objects ≡ false
    → find id h.objects ≡ none
    → id ≢ 0
    → FitsType r o
    → r.objid ≡ some id
    → s.objid ≡ some k
    → (h1 h2 : Host) × (add_object (record { started = true; replies = r ∷ []; ret = 0 }) a h
        ≡ some (0, h1))
      × (object a h1 ≡ some (record o { id = id }))
      × (find id h1.objects ≡ some a)
      × (remove_object (record { started = true; replies = s ∷ []; ret = 0 }) a h1 ≡ some (0, h2))
      × (object a h2 ≡ some (record o { id = 0 }))
      × (h2.objects ≡ h.objects)
unfolding add_object remove_object each_reply
add_remove a id r s h o e n f z y i j =
    let g =
      add_object_cb-Has a id r h o (record o { id = id }) e (object-set_id_self a id h o e) n i y in
    let gone = ap (remove_node a) g.tree ∙ remove_node-insert_into a id h.objects n f in
    let l =
      remove_object_cb-Has a s g.host (record o { id = id }) (record o { id = 0 }) h.objects
        g.in_memory (object-set_id_self a 0 g.host (record o { id = id }) g.in_memory) gone j in
    let nz : (id == 0) ≡ false = ground arith in
    (
      g.host,
      l.host,
      rw (g.result, g.in_memory, nz) refl,
      g.in_memory,
      ap (find id) g.tree ∙ find-insert_into_self id a h.objects f,
      rw (l.result, l.in_memory) refl,
      l.in_memory,
      l.tree,
    )
