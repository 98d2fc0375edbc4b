-- ===== src/Libubus/Registry.antt =====
-- ubus/libubus-obj.c, ubus/libubus-sub.c, ubus/libubus-io.c: a client registers its objects with
-- ubusd, and does it again on a new connection; and the lookups of ubus/libubus.c.
pub mod Fresh
pub mod Keyed
pub mod Refreshed
pub mod Roundtrip
pub mod Samples
pub mod Handlers
pub mod Tests
use libubus_jni.Prelude.{
  ℕ, Bool, true, false, List, [], ◌∷◌, ◌++◌, Option, none, some, if◌then◌else◌, ◌>>=◌, ◌==◌, ◌||◌,
}
use libubus_jni.Libubox.Text.{CString}
use libubus_jni.Libubox.Tree.{find, update, insert, id_ord}
use libubus_jni.Ubusd.Message.{
  Blob, Field, put_objpath, put_objtype, put_signature, put_objid, put_target, put_method, put_data,
}
use libubus_jni.Libubus.Object.{Object, Host, object}

-- A DATA message that answers a request, with the attributes that the callbacks read.
pub record Reply : Type 0 where
  pub objid : Option ℕ
  pub objpath : Option CString
  pub objtype : Option ℕ
  pub signature : Option Blob

-- What `ubus_start_request` and `ubus_complete_request` give: whether the request could be sent, the
-- DATA messages that come in, in order, and the status.
pub record Answer : Type 0 where
  pub started : Bool
  pub replies : List Reply
  pub ret : ℕ

-- `obj->type->id = id`
abbrev pub set_type_id : ℕ → ℕ → Host → Host
set_type_id t id h = record h { types = update t (λ _. id) h.types }

unfoldable pub set_id : ℕ → ℕ → Host → Host
set_id a id h = record h { memory = update a (λ o. record o { id = id }) h.memory }

-- `avl_insert`, whose result the code does not look at.
unfoldable pub insert_into : ℕ → ℕ → List (ℕ × ℕ) → List (ℕ × ℕ)
insert_into id a t = elim (insert id a t) [ none ↦ t | some u ↦ u ]

-- Whether the node of an object is in the tree.
abbrev pub is_in : ℕ → List (ℕ × ℕ) → Bool
is_in a [] = false
is_in a ((k, b) ∷ t) = b == a || is_in a t

-- `ubus_add_object_cb`; `none` is a read of an object that is not there or of the type that the
-- object does not have, or a node that is put into the tree a second time.
unfoldable pub add_object_cb : ℕ → Reply → Host → Option Host
add_object_cb a r h = elim r.objid [
  | none ↦ some h
  | some id ↦ do
    o ← object a h
    let h1 = set_id a id h
    let typed : Option Host = elim r.objtype [
      | none ↦ some h1
      | some t ↦ elim o.ty [ none ↦ none | some ty ↦ some (set_type_id ty t h1) ]
    ]
    let go = typed >>= λ h2. some (record h2 { objects = insert_into id a h2.objects })
    if is_in a h.objects then none else go
]

unfoldable pub each_reply : (Reply → Host → Option Host) → List Reply → Host → Option Host
each_reply f [] h = some h
each_reply f (r ∷ rs) h = f r h >>= each_reply f rs

-- The end of a request for an object: the status of ubusd, or UBUS_STATUS_NO_DATA (5).
abbrev pub status_for : Bool → ℕ → ℕ
status_for no_data ret = if ret == 0 then (if no_data then 5 else 0) else ret

-- `ubus_add_object`, and the attributes of its message; `sig` has the signature of each type.
unfoldable pub add_object_fields : (ℕ → List Blob) → Object → Host → List Field
add_object_fields sig o h = elim o.name [
  | none ↦ []
  | some name ↦ elim o.ty [
    | none ↦ []
    | some ty ↦ elim (find ty h.types) [
      | none ↦ []
      | some id ↦
          put_objpath name ∷ (if id == 0 then put_signature (sig ty) else put_objtype id) ∷ []
    ]
  ]
]

unfoldable pub add_object : Answer → ℕ → Host → Option (ℕ × Host)
add_object w a h =
    let go = do
      h1 ← each_reply (add_object_cb a) w.replies h
      o ← object a h1
      some (status_for (o.id == 0) w.ret, h1)
    in if w.started then go else some (2, h)

-- `avl_delete` of the node of an object; `none` where the object is not in the tree.
unfoldable pub remove_node : ℕ → List (ℕ × ℕ) → Option (List (ℕ × ℕ))
remove_node a [] = none
remove_node a ((k, b) ∷ t) =
    let rest = remove_node a t in if b == a then some t else rest >>= λ u. some ((k, b) ∷ u)

-- `ubus_remove_object_cb`
unfoldable pub remove_object_cb : ℕ → Reply → Host → Option Host
remove_object_cb a r h = elim r.objid [
  | none ↦ some h
  | some _ ↦ do
    o ← object a h
    t ← remove_node a h.objects
    let h1 = record (set_id a 0 h) { objects = t }
    some (elim r.objtype [
      | none ↦ h1
      | some _ ↦ elim o.ty [ none ↦ h1 | some ty ↦ set_type_id ty 0 h1 ]
    ])
]

-- `ubus_remove_object`; its message has the id of the object.
unfoldable pub remove_object : Answer → ℕ → Host → Option (ℕ × Host)
remove_object w a h =
    let go = do
      h1 ← each_reply (remove_object_cb a) w.replies h
      o ← object a h1
      some (status_for (if o.id == 0 then false else true) w.ret, h1)
    in if w.started then go else some (2, h)

-- The first loop of `ubus_refresh_state`: no type has an id.
unfoldable pub clear_types : List (ℕ × ℕ) → Host → Option Host
clear_types [] h = some h
clear_types ((k, a) ∷ t) h = do
  o ← object a h
  clear_types t (elim o.ty [ none ↦ h | some ty ↦ set_type_id ty 0 h ])

-- The second: no object has an id.
unfoldable pub clear_ids : List (ℕ × ℕ) → Host → Host
clear_ids [] h = h
clear_ids ((k, a) ∷ t) h = clear_ids t (set_id a 0 h)

-- The third: every object is added again, whatever the status.
unfoldable pub add_all : List (ℕ × ℕ) → List Answer → Host → Option Host
add_all [] ws h = some h
add_all ((k, a) ∷ t) [] h = some h
add_all ((k, a) ∷ t) (w ∷ ws) h = add_object w a h >>= λ r. add_all t ws r.1

-- `ubus_refresh_state`, with what ubusd answers for each object in turn.
unfoldable pub refresh_state : List Answer → Host → Option Host
refresh_state ws h = do
  h1 ← clear_types h.objects h
  add_all h.objects ws (clear_ids h.objects (record h1 { objects = [] }))

-- `__ubus_subscribe_request`: the attributes of its message.
unfoldable pub subscribe_fields : Object → ℕ → List Field
subscribe_fields o target = put_objid o.id ∷ put_target target ∷ []

-- `ubus_lookup_cb`: what the function of the application gets for a reply.
unfoldable pub lookup_cb : Reply → Option (ℕ × CString × ℕ × Option Blob)
lookup_cb r = do id ← r.objid; path ← r.objpath; ty ← r.objtype; some (id, path, ty, r.signature)

-- `ubus_lookup_id_cb`, with what `*id` is before.
unfoldable pub lookup_id_cb : Reply → ℕ → ℕ
lookup_id_cb r before = elim r.objid [ none ↦ before | some id ↦ id ]
