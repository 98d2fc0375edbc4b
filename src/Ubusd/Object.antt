-- ===== src/Ubusd/Object.antt =====
-- ubus/ubusd_obj.c: objects created and freed.
use libubus_jni.Prelude.{ℕ, ◌+◌, true, false, [], ◌∷◌, Option, none, some, ◌>>=◌}
use libubus_jni.Libubox.Text.{CString}
use libubus_jni.Libubox.Tree.{find, insert, delete, update, id_ord, string_ord}
use libubus_jni.Ubusd.Message.{Text, Attrs, Blobmsg}
use libubus_jni.Ubusd.State.{Object, Daemon, find_object, set_object, remove_first}
use libubus_jni.Ubusd.Id.{alloc_id}
use libubus_jni.Ubusd.Event.{event_cleanup_object, send_obj_event}
use libubus_jni.Ubusd.ObjType.{set_type, unref_object_type, create_obj_type, get_obj_type}
use libubus_jni.Ubusd.Subscription.{unsubscribe_all, notify_unsubscribe_all}

abbrev pub new_object : Option ℕ → Object
new_object type = record {
  client = none;
  path = none;
  obj_type = type;
  subscribers = [];
  target_list = [];
  events = [];
  recv_msg = false;
  event_seen = 0;
  invoke_seq = 0;
}

-- `ubusd_create_object_internal`
unfoldable pub create_object_internal : Option ℕ → ℕ → Daemon → Option ℕ × Daemon
create_object_internal type id d =
    let (new, random) = alloc_id id (new_object type) d.objects d.random in
    elim new [
      | none ↦ (none, record d { random = random })
      | some (i, objects) ↦
          let d1 = record d { objects = objects; random = random } in
          (
            some i,
            elim type [
              | none ↦ d1
              | some t ↦ set_type t (λ r. record r { refcount = r.refcount + 1 }) d1
            ],
          )
    ]

-- The object's path out of the tree, once its removal is published.
unfoldable pub remove_path : ℕ → Option CString → Daemon → Option Daemon
unfolding send_obj_event
remove_path id none d = some d
remove_path id (some p) d = do
  d1 ← send_obj_event id p false d
  some (record d1 { path = delete p d1.path })

-- `obj->list` is linked, into `objects` of its client, exactly when `obj->client` is set.
unfoldable pub unlink_object : ℕ → Option ℕ → Daemon → Daemon
unfolding remove_first
unlink_object id none d = d
unlink_object id (some c) d = record d {
  clients = update c (λ r. record r { objects = remove_first id r.objects }) d.clients;
}

unfoldable pub unref_type_of : Option ℕ → Daemon → Option Daemon
unfolding unref_object_type
unref_type_of none d = some d
unref_type_of (some t) d = unref_object_type t d

-- `ubusd_free_object`
unfoldable pub free_object : ℕ → Daemon → Option Daemon
unfolding find_object unsubscribe_all notify_unsubscribe_all event_cleanup_object remove_path
    unlink_object unref_type_of
free_object id d = do
  o ← find_object id d
  d1 ← unsubscribe_all id o.target_list d
  o1 ← find_object id d1
  d2 ← notify_unsubscribe_all id o1.subscribers d1
  o2 ← find_object id d2
  let d3 = event_cleanup_object id o2.events d2
  d4 ← remove_path id o2.path d3
  let d5 = unlink_object id o2.client d4
  unref_type_of o2.obj_type (record d5 { objects = delete id d5.objects })

-- The end of `ubusd_create_object`: the object is given to its client.
unfoldable pub link_object : ℕ → ℕ → Daemon → Option Daemon
unfolding set_object
link_object cl id d = do
  _ ← find cl d.clients
  let d1 = set_object id (λ o. record o { client = some cl }) d
  some (record d1 { clients = update cl (λ r. record r { objects = id ∷ r.objects }) d1.clients })

-- The rest of `ubusd_create_object` once the object exists.
unfoldable pub place_object : ℕ → ℕ → Option Text → Daemon → Option (Option ℕ × Daemon)
unfolding link_object free_object set_object send_obj_event
place_object cl id none d = link_object cl id d >>= λ d1. some (some id, d1)
place_object cl id (some p) d = elim (insert p.chars id d.path) [
  | none ↦ free_object id d >>= λ d1. some (none, d1)
  | some path ↦ do
    let d1 = set_object id (λ o. record o { path = some p.chars }) (record d { path = path })
    d2 ← send_obj_event id p.chars true d1
    d3 ← link_object cl id d2
    some (some id, d3)
]

-- The type that `ubusd_create_object` gives the object.
unfoldable pub choose_type : Blobmsg → Attrs → Daemon → Option (Option ℕ × Daemon)
unfolding get_obj_type create_obj_type
choose_type B a d = elim a.objtype [
  | some t ↦ some (get_obj_type t d)
  | none ↦ elim a.signature [ some sig ↦ create_obj_type B sig d | none ↦ some (none, d) ]
]

-- `ubusd_create_object`: the new object, or `none` for NULL.
unfoldable pub create_object : Blobmsg → ℕ → Attrs → Daemon → Option (Option ℕ × Daemon)
unfolding choose_type create_object_internal unref_type_of place_object
create_object B cl a d = do
  (type, d1) ← choose_type B a d
  let (obj, d2) = create_object_internal type 0 d1
  d3 ← unref_type_of type d2
  elim obj [ none ↦ some (none, d3) | some id ↦ place_object cl id a.objpath d3 ]
