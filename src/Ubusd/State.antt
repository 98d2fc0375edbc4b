-- ===== src/Ubusd/State.antt =====
-- The state of ubusd: the trees `objects`, `obj_types`, `path` (ubusd_obj.c), `patterns`
-- (ubusd_event.c) and `clients` (ubusd_proto.c), with the structs that they hold. A pointer to an
-- object, a type or a client is the id under which its tree has it, and an event source, whose key
-- may occur twice, has an address of its own. Following a pointer whose target is not in the tree
-- is a fault (`none`), as is following NULL.
use libubus_jni.Prelude.{ℕ, Bool, List, [], ◌∷◌, Option, none, some, ◌==◌, if◌then◌else◌}
use libubus_jni.Libubox.Text.{CString}
use libubus_jni.Libubox.Tree.{find, update, id_ord}
use libubus_jni.Ubusd.Message.{Blob, Message}

-- `struct ubus_object_type`
pub record ObjectType : Type 0 where
  pub refcount : ℕ
  pub methods : List Blob

-- `struct event_source`; its key stands in the tree.
pub record EventSource : Type 0 where
  pub address : ℕ
  pub obj : ℕ
  pub partial : Bool

-- `struct ubus_object`. A `struct ubus_subscription` is on two lists, `subscribers` of its target
-- and `target_list` of its subscriber: each list holds the other end. `recv_msg` is set if the
-- pointer is, which is then `ubusd_event_recv`.
pub record Object : Type 0 where
  pub client : Option ℕ
  pub path : Option CString
  pub obj_type : Option ℕ
  pub subscribers : List ℕ
  pub target_list : List ℕ
  pub events : List ℕ
  pub recv_msg : Bool
  pub event_seen : ℕ
  pub invoke_seq : ℕ

-- What `struct ubus_client` has beside its connection: `objects`.
pub record Client : Type 0 where
  pub objects : List ℕ

-- What ubusd does to the outside, one entry for each call: `ubus_msg_send` to a client, the
-- reference to the received message given up (`ubus_msg_free`), and `close` of a descriptor.
pub data Effect : Type 0 where
  sent : ℕ → Message → Effect
  freed : Effect
  closed : ℕ → Effect

-- `random` are the values that reads of /dev/urandom give; at its end a read fails. The log has
-- its latest entry first.
pub record Daemon : Type 0 where
  pub objects : List (ℕ × Object)
  pub obj_types : List (ℕ × ObjectType)
  pub path : List (CString × ℕ)
  pub patterns : List (CString × EventSource)
  pub clients : List (ℕ × Client)
  pub event_seq : ℕ
  pub obj_event_seq : ℕ
  pub next_address : ℕ
  pub random : List ℕ
  pub log : List Effect

-- `ubusd_find_object`
unfoldable pub find_object : ℕ → Daemon → Option Object
find_object id d = find id d.objects

-- A write to a field of the object with this id.
unfoldable pub set_object : ℕ → (Object → Object) → Daemon → Daemon
set_object id f d = record d { objects = update id f d.objects }

unfoldable pub add_log : Effect → Daemon → Daemon
add_log e d = record d { log = e ∷ d.log }

-- `ubus_msg_send(cl, ub, …)` through a client pointer, which may be NULL.
unfoldable pub send_to : Option ℕ → Message → Daemon → Option Daemon
unfolding add_log
send_to none m d = none
send_to (some c) m d = elim (find c d.clients) [
  | none ↦ none
  | some _ ↦ some (add_log (sent c m) d)
]

-- `obj->client == cl`
unfoldable pub same_client : Option ℕ → Option ℕ → Bool
same_client none none = Bool.true
same_client none (some c) = Bool.false
same_client (some b) none = Bool.false
same_client (some b) (some c) = b == c

-- `list_del` of one node, by the value that it holds.
unfoldable pub remove_first : ℕ → List ℕ → List ℕ
remove_first x [] = []
remove_first x (y ∷ ys) = if x == y then ys else y ∷ remove_first x ys
