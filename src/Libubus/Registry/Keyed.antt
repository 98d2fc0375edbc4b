-- ===== src/Libubus/Registry/Keyed.antt =====
-- Every object of the tree has the id under which it is filed (ubus/libubus-obj.c,
-- ubus/libubus-io.c).
use mathlib.Core.Option.{some-injective}
use mathlib.Core.Option
use libubus_jni.Prelude.{
  ℕ, ◌≡◌, ◌≢◌, refl, sym, ap, ◌∙◌, arith, true, false, List, [], ◌∷◌, Option, none, some, ◌==◌, ◌⊎◌,
  Bool-cases, Option-cases, inl, inr, Ensures, fault, ensured, >>=-Ensures, Ensures-any, if-Ensures,
}
use libubus_jni.Libubox.Tree.{find, insert, place, id_ord}
use libubus_jni.Libubox.Tree.Find.{find-update_self, find-update_ne, find-place_self, find-place_ne}
use libubus_jni.Libubus.Object.{Object, Host, object}
use libubus_jni.Libubus.Registry.{
  Reply, Answer, set_id, set_type_id, is_in, insert_into, add_object_cb, each_reply, add_object,
  clear_types, clear_ids, add_all, refresh_state,
}

-- Every object of the tree is in memory and has the id under which it is filed.
abbrev pub Keyed : Host → Type 0
Keyed h =
    (id a : ℕ) → find id h.objects ≡ some a → (o : Object) × (object a h ≡ some o) × (o.id ≡ id)

find-is_in : (id a : ℕ) (t : List (ℕ × ℕ)) → find id t ≡ some a → is_in a t ≡ true
unfolding find
find-is_in id a [] e = ground arith
find-is_in id a ((k, b) ∷ t) e = ground (arith, find-is_in id a t)

-- The memory after a write of the id.
pub object-set_id_self :
    (a id : ℕ) (h : Host) (o : Object)
    → object a h ≡ some o
    → object a (set_id a id h) ≡ some (record o { id = id })
unfolding object set_id
object-set_id_self a id h o e =
    let f : Object → Object = λ x. record x { id = id } in
    find-update_self a f h.memory ∙ ap (Option.map f) e

pub object-set_id_ne : (a id b : ℕ) (h : Host) → b ≢ a → object b (set_id a id h) ≡ object b h
unfolding object set_id
object-set_id_ne a id b h n = find-update_ne a b _ h.memory n

find-insert_into :
    (id a j b : ℕ) (t : List (ℕ × ℕ))
    → find j (insert_into id a t) ≡ some b
    → (find j t ≡ some b) ⊎ ((j ≡ id) × (b ≡ a))
unfolding insert_into insert
find-insert_into id a j b t e = elim (Option-cases (find id t)) [
  | inr (x, f) ↦ inl (rw (insert_into, insert, f) at e)
  | inl f ↦
      let g : find j (place id a t) ≡ some b = rw (insert_into, insert, f) at e in
      elim (Bool-cases (j == id)) [
        | inl s ↦
            let s1 : j ≡ id = ground arith in
            let at : some a ≡ some b =
              sym (find-place_self id a t f) ∙ ap (λ x. find x (place id a t)) (sym s1) ∙ g in
            inr (s1, sym (some-injective _ _ at))
        | inr s ↦ inl (sym (find-place_ne id j a t (ground arith)) ∙ g)
      ]
]

-- The object filed under its new id.
filed-Keyed :
    (a id : ℕ) (h h1 : Host) (o : Object)
    → Keyed h
    → is_in a h.objects ≡ false
    → object a h ≡ some o
    → h1.memory ≡ (set_id a id h).memory
    → h1.objects ≡ h.objects
    → Keyed (record h1 { objects = insert_into id a h1.objects })
unfolding object
filed-Keyed a id h h1 o k n e m t j b f =
    elim (find-insert_into id a j b h.objects (ap (λ y. find j (insert_into id a y)) (sym t) ∙ f)) [
      | inl g ↦
          let (x, g1, g2) = k j b g in
          let ne : b ≢ a = λ s.
            let s1 : is_in a h.objects ≡ true =
              ap (λ y. is_in y h.objects) (sym s) ∙ find-is_in j b h.objects g in
            ground arith in
          (x, ap (find b) m ∙ object-set_id_ne a id b h ne ∙ g1, g2)
      | inr (s, s1) ↦ (
        record o { id = id },
        ap (λ y. find y h1.memory) s1 ∙ ap (find a) m ∙ object-set_id_self a id h o e,
        sym s,
      )
    ]

pub typed-memory :
    (ty : Option ℕ) (r : Option ℕ) (h : Host)
    → Ensures
        (λ h2. (h2.memory ≡ h.memory) × (h2.objects ≡ h.objects))
        (elim r as (λ _. Option Host) [
          | none ↦ some h
          | some t ↦ elim ty [ none ↦ none | some x ↦ some (set_type_id x t h) ]
        ])
typed-memory ty none h = ensured (refl, refl)
typed-memory none (some t) h = fault
typed-memory (some x) (some t) h = ensured (refl, refl)

pub add_object_cb-Keyed :
    (a : ℕ) (r : Reply) (h : Host) → Keyed h → Ensures Keyed (add_object_cb a r h)
unfolding add_object_cb set_id
add_object_cb-Keyed a r h k = elim (Option-cases r.objid) [
  | inl n ↦ rw n (ensured k)
  | inr (id, n) ↦ elim (Option-cases (object a h)) [
    | inl e ↦ rw (n, e) fault
    | inr (o, e) ↦
        rw (n, e)
          (elim (Bool-cases (is_in a h.objects)) [
            | inl i ↦ rw i fault
            | inr i ↦ rw i (
                >>=-Ensures (typed-memory o.ty r.objtype (set_id a id h))
                  (λ h2 m. ensured (filed-Keyed a id h h2 o k i e m.0 m.1)))
          ])
  ]
]

each_reply-Keyed :
    (a : ℕ) (rs : List Reply) (h : Host)
    → Keyed h
    → Ensures Keyed (each_reply (add_object_cb a) rs h)
unfolding each_reply
each_reply-Keyed a [] h k = ensured k
each_reply-Keyed a (r ∷ rs) h k =
    >>=-Ensures (add_object_cb-Keyed a r h k) (λ h1 k1. each_reply-Keyed a rs h1 k1)

pub add_object-Keyed :
    (w : Answer) (a : ℕ) (h : Host) → Keyed h → Ensures (λ r. Keyed r.1) (add_object w a h)
unfolding add_object
add_object-Keyed w a h k =
    if-Ensures w.started
      (>>=-Ensures (each_reply-Keyed a w.replies h k)
        (λ h1 k1. >>=-Ensures (Ensures-any (object a h1)) (λ o _. ensured k1)))
      (ensured k)

add_all-Keyed :
    (t : List (ℕ × ℕ)) (ws : List Answer) (h : Host) → Keyed h → Ensures Keyed (add_all t ws h)
unfolding add_all
add_all-Keyed [] ws h k = ensured k
add_all-Keyed ((i, a) ∷ t) [] h k = ensured k
add_all-Keyed ((i, a) ∷ t) (w ∷ ws) h k =
    >>=-Ensures (add_object-Keyed w a h k) (λ r k1. add_all-Keyed t ws r.1 k1)

pub clear_ids-objects : (t : List (ℕ × ℕ)) (h : Host) → (clear_ids t h).objects ≡ h.objects
unfolding clear_ids set_id
clear_ids-objects [] h = refl
clear_ids-objects ((i, a) ∷ t) h = clear_ids-objects t (set_id a 0 h)

none-some : {a : ℕ} → none ≡ some a → ⊥
none-some e = ground arith

empty-Keyed : (h : Host) → h.objects ≡ [] → Keyed h
unfolding find
empty-Keyed h e id a f = absurd (none-some (ap (find id) (sym e) ∙ f))

-- Whatever ids the objects have and whatever ubusd answers, unless the code faults, behind
-- `ubus_refresh_state` every object of the tree is in memory and has the id under which it is
-- filed.
pub refresh_state-Keyed : (ws : List Answer) (h : Host) → Ensures Keyed (refresh_state ws h)
unfolding refresh_state
refresh_state-Keyed ws h = >>=-Ensures (Ensures-any (clear_types h.objects h)) (λ h1 _.
    add_all-Keyed h.objects ws _
      (empty-Keyed _ (clear_ids-objects h.objects (record h1 { objects = [] }))))
