-- ===== src/Ubusd/Edits/Objects.antt =====
-- The operations on types, objects and subscriptions, as sequences of single changes.
use libubus_jni.Prelude.{
  ℕ, ◌+◌, ◌≡◌, true, false, List, [], ◌∷◌, Option, none, some, Ensures, ensured, >>=-Ensures,
  Ensures-any, if-Ensures, Option-cases, inl, inr, Bool-cases,
}
use libubus_jni.Libubox.Text.{CString}
use libubus_jni.Libubox.Tree.{find, insert, place, id_ord, string_ord}
use libubus_jni.Ubusd.Message.{Blob, Text, Attrs, Blobmsg}
use libubus_jni.Ubusd.State.{Daemon, find_object, set_object, Object}
use libubus_jni.Ubusd.Id.{alloc_id}
use libubus_jni.Ubusd.Id.Fresh.{alloc_id-fresh, insert-fresh}
use libubus_jni.Ubusd.ObjType.{
  set_type, unref_object_type, add_methods, create_obj_method, create_obj_type, get_obj_type,
}
use libubus_jni.Ubusd.Subscription.{
  is_empty, notify_subscription, link_subscription, unlink_subscription, subscribe, unsubscribe,
  notify_unsubscribe, unsubscribe_all, notify_unsubscribe_all,
}
use libubus_jni.Ubusd.Object.{
  new_object, create_object_internal, remove_path, unlink_object, unref_type_of, free_object,
  link_object, place_object, choose_type, create_object,
}
use libubus_jni.Ubusd.Edits.{
  Edits, done, next, Edits-trans, object_set, object_add, object_delete, type_set, type_add,
  type_delete, client_set, path_add, path_delete, count,
}
use libubus_jni.Ubusd.Edits.Events.{
  Edits-bind, Edits-after, send_to-Edits, event_cleanup-Edits, send_obj_event-Edits,
}

unref_object_type-Edits : (t : ℕ) (d : Daemon) → Ensures (Edits d) (unref_object_type t d)
unfolding unref_object_type
unref_object_type-Edits t d =
    >>=-Ensures (Ensures-any (find t d.obj_types)) λ ty _.
      if-Ensures _ (ensured (next done (type_set t _))) (ensured (next done (type_delete t)))

add_methods-Edits :
    (B : Blobmsg) (t : ℕ) (sig : List Blob) (d : Daemon) → Edits d (add_methods B t sig d).1
unfolding add_methods
add_methods-Edits B t [] d = done
add_methods-Edits B t (b ∷ bs) d = elim (Bool-cases (B.check_attr b)) [
  | inl fine ↦
      rw fine (
        Edits-trans (next done (type_set t _)) (add_methods-Edits B t bs (create_obj_method t b d)))
  | inr bad ↦ rw bad done
]

create_obj_type-Edits :
    (B : Blobmsg) (sig : List Blob) (d : Daemon)
    → Ensures (λ r. Edits d r.1) (create_obj_type B sig d)
unfolding create_obj_type
create_obj_type-Edits B sig d =
    elim (Option-cases
      (alloc_id 0 (record { refcount = 1; methods = [] }) d.obj_types d.random).0) [
        | inl e ↦ rw (e, create_obj_type) (ensured (next done (count _ _ _ _)))
        | inr ((t, types), e) ↦
            let (free, placed) = alloc_id-fresh _ d.obj_types 0 d.random e in
            rw (e, create_obj_type)
              (rw placed (
                if-Ensures _ (ensured (Edits-trans (start t free) (add_methods-Edits B t sig _))) (
                  Edits-after (Edits-trans (start t free) (add_methods-Edits B t sig _))
                    (>>=-Ensures (unref_object_type-Edits t _) λ e r. ensured r))))
      ]
  where
    start :
        (t : ℕ)
        → find t d.obj_types ≡ none
        → Edits d (record d {
          obj_types = place t (record { refcount = 1; methods = [] }) d.obj_types;
          random = (alloc_id 0 (record { refcount = 1; methods = [] }) d.obj_types d.random).1;
        })
    start t free = next (next done (type_add t _ free)) (count _ _ _ _)

get_obj_type-Edits : (t : ℕ) (d : Daemon) → Edits d (get_obj_type t d).1
unfolding get_obj_type
get_obj_type-Edits t d = elim (Option-cases (find t d.obj_types)) [
  | inl e ↦ rw (e, get_obj_type) done
  | inr (ty, e) ↦ rw (e, get_obj_type) (next done (type_set t _))
]

create_object_internal-Edits :
    (type : Option ℕ) (id : ℕ) (d : Daemon) → Edits d (create_object_internal type id d).1
unfolding create_object_internal
create_object_internal-Edits type id d =
    elim (Option-cases (alloc_id id (new_object type) d.objects d.random).0) [
      | inl e ↦ rw (e, create_object_internal) (next done (count _ _ _ _))
      | inr ((i, objects), e) ↦
          let (free, placed) = alloc_id-fresh _ d.objects id d.random e in
          rw (e, create_object_internal) (ref type (start i objects free placed))
    ]
  where
    start :
        (i : ℕ) (objects : List (ℕ × Object))
        → find i d.objects ≡ none
        → objects ≡ place i (new_object type) d.objects
        → Edits d (record d {
          objects = objects;
          random = (alloc_id id (new_object type) d.objects d.random).1;
        })
    start i objects free placed = rw placed (next (next done (object_add i _ free)) (count _ _ _ _))

    ref :
        (t : Option ℕ) {e : Daemon}
        → Edits d e
        → let e' : Daemon = elim t [
          | none ↦ e
          | some t ↦ set_type t (λ r. record r { refcount = r.refcount + 1 }) e
        ] in
          Edits d e'
    ref none r = r
    ref (some t) r = next r (type_set t _)

notify_subscription-Edits : (id : ℕ) (d : Daemon) → Ensures (Edits d) (notify_subscription id d)
unfolding notify_subscription
notify_subscription-Edits id d =
    >>=-Ensures (Ensures-any (find_object id d))
      λ o _. Edits-after (next done (object_set id _)) (send_to-Edits _ _ _)

link_subscription-Edits : (obj target : ℕ) (d : Daemon) → Edits d (link_subscription obj target d)
unfolding link_subscription
link_subscription-Edits obj target d = next (next done (object_set target _)) (object_set obj _)

unlink_subscription-Edits :
    (obj target : ℕ) (d : Daemon) → Edits d (unlink_subscription obj target d)
unfolding unlink_subscription
unlink_subscription-Edits obj target d = next (next done (object_set target _)) (object_set obj _)

pub subscribe-Edits : (obj target : ℕ) (d : Daemon) → Ensures (Edits d) (subscribe obj target d)
unfolding subscribe
subscribe-Edits obj target d = >>=-Ensures (Ensures-any (find_object target d)) λ t _.
    let linked = link_subscription-Edits obj target d in
    if-Ensures (is_empty t.subscribers) (Edits-after linked (notify_subscription-Edits target _))
      (ensured linked)

pub unsubscribe-Edits : (obj target : ℕ) (d : Daemon) → Ensures (Edits d) (unsubscribe obj target d)
unfolding unsubscribe
unsubscribe-Edits obj target d =
    >>=-Ensures (Ensures-any (find_object target (unlink_subscription obj target d))) λ t _.
      let unlinked = unlink_subscription-Edits obj target d in
      if-Ensures (is_empty t.subscribers)
        (Edits-after unlinked (notify_subscription-Edits target _)) (ensured unlinked)

notify_unsubscribe-Edits :
    (obj target : ℕ) (d : Daemon) → Ensures (Edits d) (notify_unsubscribe obj target d)
unfolding notify_unsubscribe
notify_unsubscribe-Edits obj target d = >>=-Ensures (Ensures-any (find_object obj d)) λ o _.
    Edits-after (next done (object_set obj _))
      (Edits-bind (λ x. x) (send_to-Edits _ _ _) (unsubscribe-Edits obj target))

unsubscribe_all-Edits :
    (id : ℕ) (ts : List ℕ) (d : Daemon) → Ensures (Edits d) (unsubscribe_all id ts d)
unfolding unsubscribe_all
unsubscribe_all-Edits id [] d = ensured done
unsubscribe_all-Edits id (t ∷ ts) d =
    Edits-bind (λ x. x) (unsubscribe-Edits id t d) (unsubscribe_all-Edits id ts)

notify_unsubscribe_all-Edits :
    (id : ℕ) (ss : List ℕ) (d : Daemon) → Ensures (Edits d) (notify_unsubscribe_all id ss d)
unfolding notify_unsubscribe_all
notify_unsubscribe_all-Edits id [] d = ensured done
notify_unsubscribe_all-Edits id (s ∷ ss) d =
    Edits-bind (λ x. x) (notify_unsubscribe-Edits s id d) (notify_unsubscribe_all-Edits id ss)

remove_path-Edits :
    (id : ℕ) (p : Option CString) (d : Daemon) → Ensures (Edits d) (remove_path id p d)
unfolding remove_path
remove_path-Edits id none d = ensured done
remove_path-Edits id (some p) d =
    >>=-Ensures (send_obj_event-Edits id p false d) λ e r. ensured (next r (path_delete p))

unlink_object-Edits : (id : ℕ) (c : Option ℕ) (d : Daemon) → Edits d (unlink_object id c d)
unfolding unlink_object
unlink_object-Edits id none d = done
unlink_object-Edits id (some c) d = next done (client_set c _)

unref_type_of-Edits : (t : Option ℕ) (d : Daemon) → Ensures (Edits d) (unref_type_of t d)
unfolding unref_type_of
unref_type_of-Edits none d = ensured done
unref_type_of-Edits (some t) d = unref_object_type-Edits t d

pub free_object-Edits : (id : ℕ) (d : Daemon) → Ensures (Edits d) (free_object id d)
unfolding free_object
free_object-Edits id d = >>=-Ensures (Ensures-any (find_object id d)) λ o _.
    Edits-bind (λ x. x) (unsubscribe_all-Edits id o.target_list d)
      λ d1. >>=-Ensures (Ensures-any (find_object id d1)) λ o1 _.
        Edits-bind (λ x. x) (notify_unsubscribe_all-Edits id o1.subscribers d1)
          λ d2. >>=-Ensures (Ensures-any (find_object id d2)) λ o2 _.
            Edits-after (event_cleanup-Edits id o2.events d2) (
              Edits-bind (λ x. x) (remove_path-Edits id o2.path _)
                λ d4.
                  Edits-after (next (unlink_object-Edits id o2.client d4) (object_delete id))
                    (unref_type_of-Edits o2.obj_type _))

link_object-Edits : (cl id : ℕ) (d : Daemon) → Ensures (Edits d) (link_object cl id d)
unfolding link_object
link_object-Edits cl id d =
    >>=-Ensures (Ensures-any (find cl d.clients))
      λ c _. ensured (next (next done (object_set id _)) (client_set cl _))

place_object-Edits :
    (cl id : ℕ) (p : Option Text) (d : Daemon) → Ensures (λ r. Edits d r.1) (place_object cl id p d)
unfolding place_object
place_object-Edits cl id none d = >>=-Ensures (link_object-Edits cl id d) λ e r. ensured r
place_object-Edits cl id (some p) d = elim (Option-cases (insert p.chars id d.path)) [
  | inl e ↦ rw (e, place_object) (>>=-Ensures (free_object-Edits id d) λ e r. ensured r)
  | inr (path, e) ↦
      let (free, placed) = insert-fresh p.chars id d.path e in
      rw (e, place_object)
        (Edits-after (start path free placed) (
          >>=-Ensures (send_obj_event-Edits id p.chars true _)
            λ d2 r. >>=-Ensures (link_object-Edits cl id d2) λ d3 s. ensured (Edits-trans r s)))
]
  where
    start :
        (path : List (CString × ℕ))
        → find p.chars d.path ≡ none
        → path ≡ place p.chars id d.path
        → Edits d (set_object id (λ o. record o { path = some p.chars }) (record d { path = path }))
    start path free placed =
        rw placed (next (next done (path_add p.chars id free)) (object_set id _))

choose_type-Edits :
    (B : Blobmsg) (a : Attrs) (d : Daemon) → Ensures (λ r. Edits d r.1) (choose_type B a d)
unfolding choose_type
choose_type-Edits B a d = go a.objtype a.signature
  where
    go :
        (t : Option ℕ) (sig : Option (List Blob))
        → Ensures {A = Option ℕ × Daemon}
            (λ r. Edits d r.1)
            (elim t [
              | some t ↦ some (get_obj_type t d)
              | none ↦ elim sig [ some sig ↦ create_obj_type B sig d | none ↦ some (none, d) ]
            ])
    go (some t) sig = ensured (get_obj_type-Edits t d)
    go none (some sig) = create_obj_type-Edits B sig d
    go none none = ensured done

pub create_object-Edits :
    (B : Blobmsg) (cl : ℕ) (a : Attrs) (d : Daemon)
    → Ensures (λ r. Edits d r.1) (create_object B cl a d)
unfolding create_object
create_object-Edits B cl a d = >>=-Ensures (choose_type-Edits B a d) λ r1 s1.
    >>=-Ensures (unref_type_of-Edits r1.0 _) λ d3 s3.
      Edits-after (Edits-trans (Edits-trans s1 (create_object_internal-Edits r1.0 0 r1.1)) s3)
        (place_new (create_object_internal r1.0 0 r1.1).0 d3)
  where
    place_new :
        (obj : Option ℕ) (e : Daemon)
        → Ensures {A = Option ℕ × Daemon}
            (λ r. Edits e r.1)
            (elim obj [ none ↦ some (none, e) | some id ↦ place_object cl id a.objpath e ])
    place_new none e = ensured done
    place_new (some id) e = place_object-Edits cl id a.objpath e
