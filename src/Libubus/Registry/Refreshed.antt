-- ===== src/Libubus/Registry/Refreshed.antt =====
-- Behind a new connection every object is registered again (ubus/libubus-io.c).
use mathlib.Core.Path.{subst}
use libubus_jni.Prelude.{
  ℕ, ◌≡◌, ◌≢◌, refl, sym, ap, ◌∙◌, arith, true, List, [], ◌∷◌, Option, none, some, ◌>>=◌, ◌==◌,
  Bool-cases, Option-cases, inl, inr, Ensures, fault, ensured, >>=-Ensures, Ensures-some,
  if-Ensures,
}
use libubus_jni.Libubox.Tree.{find, id_ord}
use libubus_jni.Libubus.Object.{Object, Host, object}
use libubus_jni.Libubus.Registry.{
  Reply, set_id, set_type_id, is_in, add_object_cb, each_reply, status_for, add_object, clear_types,
  clear_ids, add_all, refresh_state,
}
use libubus_jni.Libubus.Registry.Keyed.{
  Keyed, clear_ids-objects, refresh_state-Keyed, object-set_id_self, object-set_id_ne, typed-memory,
}
use libubus_jni.Libubus.Registry.Roundtrip.{FitsType, add_object_cb-Has, find-insert_into_self}
use libubus_jni.Libubus.Registry.Fresh.{
  answers, Fits, Apart, Avoids, Differ, Outside, Unused, Filed, Fits-same, Outside-insert_into,
  find-insert_into_ne, Unused-insert_into,
}

-- Only the object itself is written to.
add_object_cb-others :
    (a : ℕ) (r : Reply) (h : Host)
    → Ensures (λ h1. (b : ℕ) → b ≢ a → object b h1 ≡ object b h) (add_object_cb a r h)
unfolding add_object_cb object
add_object_cb-others a r h = elim (Option-cases r.objid) [
  | inl n ↦ rw n (ensured (λ b ne. refl))
  | inr (id, n) ↦ elim (Option-cases (find a h.memory)) [
    | inl e ↦ rw (n, e) fault
    | inr (o, e) ↦
        rw (n, e)
          (if-Ensures (is_in a h.objects) fault (
            >>=-Ensures (typed-memory o.ty r.objtype (set_id a id h))
              (λ h2 m. ensured (λ b ne. ap (find b) m.0 ∙ object-set_id_ne a id b h ne))))
  ]
]

add_object-answered :
    (a : ℕ) (id : ℕ) (r : Reply) (h h1 : Host) (p : Object)
    → add_object_cb a r h ≡ some h1
    → object a h1 ≡ some p
    → add_object (record { started = true; replies = r ∷ []; ret = 0 }) a h
      ≡ some (status_for (p.id == 0) 0, h1)
unfolding add_object each_reply
add_object-answered a id r h h1 p e q = rw (e, q) refl

add_all-Filed :
    (t : List (ℕ × ℕ)) (rs : List (ℕ × Reply)) (h : Host)
    → Fits t rs h
    → Apart t
    → Differ rs
    → Outside t h.objects
    → Unused rs h.objects
    → (h2 : Host) × (add_all t (answers rs) h ≡ some h2)
      × Filed t rs h2.objects
      × ((j : ℕ) → Avoids j rs → find j h2.objects ≡ find j h.objects)
unfolding add_all
add_all-Filed [] [] h f a d o u = (h, refl, tt, λ j v. refl)
add_all-Filed [] (x ∷ rs) h f a d o u = absurd f
add_all-Filed (x ∷ t) [] h f a d o u = absurd f
add_all-Filed ((k, a) ∷ t) ((id, r) ∷ rs) h f ap1 d o u =
    let (x, e, y) = f.0 in
    let g =
      add_object_cb-Has a id r h x (record x { id = id }) e (object-set_id_self a id h x e) o.0 f.1
        y in
    let others = Ensures-some (add_object_cb-others a r h) g.result in
    let (h2, res, filed, keep) =
      add_all-Filed t rs g.host (Fits-same t rs a h g.host ap1.0 others f.2) ap1.1 d.1
        (subst (Outside t) (sym g.tree) (Outside-insert_into t id a h.objects ap1.0 o.1))
        (subst (Unused rs) (sym g.tree) (Unused-insert_into rs id a h.objects d.0 u.1)) in
    (
      h2,
      ap (λ m. m >>= λ q. add_all t (answers rs) q.1)
            (add_object-answered a id r h g.host _ g.result g.in_memory)
          ∙ res,
      (keep id d.0 ∙ ap (find id) g.tree ∙ find-insert_into_self id a h.objects u.0, filed),
      λ j v.
          keep j v.1 ∙ ap (find j) g.tree ∙ find-insert_into_ne id a j h.objects (λ s. v.0 (sym s)),
    )

FitsType-same : (r : Reply) (o p : Object) → p.ty ≡ o.ty → FitsType r o → FitsType r p
FitsType-same r o p e (inl n) = inl n
FitsType-same r o p e (inr (ty, n)) = inr (ty, e ∙ n)

-- A change of the ids alone.
pub Fits-all :
    (t : List (ℕ × ℕ)) (rs : List (ℕ × Reply)) (h h1 : Host)
    → ((b : ℕ) (o : Object)
        → object b h ≡ some o
        → (p : Object) × (object b h1 ≡ some p) × (p.ty ≡ o.ty))
    → Fits t rs h
    → Fits t rs h1
Fits-all [] [] h h1 s f = tt
Fits-all [] (x ∷ rs) h h1 s f = f
Fits-all (x ∷ t) [] h h1 s f = f
Fits-all ((k, b) ∷ t) ((id, r) ∷ rs) h h1 s f =
    let (o, e, y) = f.0 in
    let (p, q, z) = s b o e in ((p, q, FitsType-same r o p z y), f.1, Fits-all t rs h h1 s f.2)

Fits-set_id :
    (t : List (ℕ × ℕ)) (rs : List (ℕ × Reply)) (a id : ℕ) (h : Host)
    → Fits t rs h
    → Fits t rs (set_id a id h)
Fits-set_id t rs a id h f =
    Fits-all t rs h (set_id a id h)
      (λ b o e. elim (Bool-cases (b == a)) [
        | inl s ↦
            let same : b ≡ a = ground arith in
            (
              record o { id = id },
              ap (λ y. object y (set_id a id h)) same
                  ∙ object-set_id_self a id h o (ap (λ y. object y h) (sym same) ∙ e),
              refl,
            )
        | inr s ↦ (o, object-set_id_ne a id b h (ground arith) ∙ e, refl)
      ])
      f

Fits-clear_ids :
    (u t : List (ℕ × ℕ)) (rs : List (ℕ × Reply)) (h : Host)
    → Fits t rs h
    → Fits t rs (clear_ids u h)
unfolding clear_ids
Fits-clear_ids [] t rs h f = f
Fits-clear_ids ((k, a) ∷ u) t rs h f =
    Fits-clear_ids u t rs (set_id a 0 h) (Fits-set_id t rs a 0 h f)

typed_memory :
    (ty : Option ℕ) (h : Host)
    → (elim ty as (λ _. Host) [ none ↦ h | some x ↦ set_type_id x 0 h ]).memory ≡ h.memory
typed_memory none h = refl
typed_memory (some x) h = refl

-- No object is missing, so the first loop comes to its end.
clear_types_lem :
    (t : List (ℕ × ℕ)) (rs : List (ℕ × Reply)) (h : Host)
    → Fits t rs h
    → (h1 : Host) × (clear_types t h ≡ some h1) × (h1.memory ≡ h.memory)
unfolding clear_types object
clear_types_lem [] [] h f = (h, refl, refl)
clear_types_lem [] (x ∷ rs) h f = absurd f
clear_types_lem (x ∷ t) [] h f = absurd f
clear_types_lem ((k, a) ∷ t) ((id, r) ∷ rs) h f =
    let (o, e, y) = f.0 in
    let h0 : Host = elim o.ty [ none ↦ h | some ty ↦ set_type_id ty 0 h ] in
    let same : h0.memory ≡ h.memory = typed_memory o.ty h in
    let fits = Fits-all t rs h h0 (λ b p q. (p, ap (find b) same ∙ q, refl)) f.2 in
    let (h1, res, m) = clear_types_lem t rs h0 fits in (h1, rw e res, m ∙ same)

Outside-empty : (t : List (ℕ × ℕ)) → Outside t []
Outside-empty [] = tt
Outside-empty ((k, a) ∷ t) = (refl, Outside-empty t)

Unused-empty : (rs : List (ℕ × Reply)) → Unused rs []
unfolding find
Unused-empty [] = tt
Unused-empty ((id, r) ∷ rs) = (refl, Unused-empty rs)

-- Every object of the tree is in memory and stands there once, and ubusd answers for each in turn
-- with one message that has an id, all of them different, and a type only if the object has one:
-- `ubus_refresh_state` comes to its end without a fault, every object is filed under its new id,
-- and every object of the tree then has the id under which it is filed.
pub refresh_state-Filed :
    (rs : List (ℕ × Reply)) (h : Host)
    → Fits h.objects rs h
    → Apart h.objects
    → Differ rs
    → (h2 : Host) × (refresh_state (answers rs) h ≡ some h2)
      × Filed h.objects rs h2.objects
      × Keyed h2
unfolding refresh_state object
refresh_state-Filed rs h f a d =
    let (h1, res, m) = clear_types_lem h.objects rs h f in
    let h3 : Host = clear_ids h.objects (record h1 { objects = [] }) in
    let none_left : h3.objects ≡ [] = clear_ids-objects h.objects (record h1 { objects = [] }) in
    let fits : Fits h.objects rs h3 =
      Fits-clear_ids h.objects h.objects rs (record h1 { objects = [] })
        (Fits-all h.objects rs h (record h1 { objects = [] })
          (λ b p q. (p, ap (find b) m ∙ q, refl)) f) in
    let (h2, res2, filed, keep) =
      add_all-Filed h.objects rs h3 fits a d
        (subst (Outside h.objects) (sym none_left) (Outside-empty h.objects))
        (subst (Unused rs) (sym none_left) (Unused-empty rs)) in
    let all =
      ap
        (λ x. x >>= λ y.
          add_all h.objects (answers rs) (clear_ids h.objects (record y { objects = [] })))
        res
      ∙ res2 in
    (h2, all, filed, Ensures-some (refresh_state-Keyed (answers rs) h) all)
