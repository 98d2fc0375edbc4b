-- ===== src/Ubusd/Proto/Objects.antt =====
-- ubus/ubusd_proto.c: objects added and removed.
pub mod Removed
use libubus_jni.Prelude.{
  ℕ, List, [], ◌∷◌, Option, none, some, ◌==◌, if◌then◌else◌, ◌>>=◌, ◌-◌, length, take,
}
use libubus_jni.Libubox.Tree.{find, id_ord, string_ord}
use libubus_jni.Ubusd.Message.{
  Blob, Field, put_objid, put_objtype, MsgType, Blobmsg, Status, Body, built, received,
}
use libubus_jni.Ubusd.State.{Daemon, Effect, sent, freed, closed, find_object, same_client}
use libubus_jni.Ubusd.Object.{create_object, free_object}
use libubus_jni.Ubusd.Proto.Reply.{status, Handler, send_msg_from_blob}

-- "check if we're removing the object type as well"
unfoldable pub last_type : Option ℕ → Daemon → Option (List Field)
last_type none d = some []
last_type (some t) d =
    find t d.obj_types >>= λ ty. some (if ty.refcount == 1 then put_objtype t ∷ [] else [])

abbrev pub built_or : Body → List Field → List Field
built_or (built fs) rest = fs
built_or (received _) rest = rest

-- What the buffer `b` that all messages of ubusd are built in holds behind these effects, the latest
-- first, where it held `fields` before: a message that is built in it is sent at once, and the object
-- id of each receiver of an event is written into it.
unfoldable pub last_built : List Effect → List Field → List Field
last_built [] fields = fields
last_built (sent _ m ∷ l) fields = built_or m.body (last_built l fields)
last_built (freed ∷ l) fields = last_built l fields
last_built (closed _ ∷ l) fields = last_built l fields

-- The effects between two states, the latest first.
abbrev pub effects_since : Daemon → Daemon → List Effect
effects_since d d1 = take (length d1.log - length d.log) d1.log

-- `ubusd_handle_remove_object`. The reply is built in `b` before `ubusd_free_object` and taken from `b`
-- behind it.
unfoldable pub handle_remove_object : Handler
unfolding find_object same_client last_type free_object send_msg_from_blob last_built
handle_remove_object cl ub d = elim ub.attrs.objid [
  | none ↦ some (status Status.invalid_argument, d)
  | some id ↦ elim (find_object id d) [
    | none ↦ some (status Status.not_found, d)
    | some o ↦
        let go = do
          types ← last_type o.obj_type d
          d1 ← free_object id d
          let fields = last_built (effects_since d d1) (put_objid id ∷ types)
          d2 ← send_msg_from_blob (some cl) ub MsgType.data_reply fields d1
          some (status Status.ok, d2)
        in if same_client o.client (some cl) then go else some (status Status.permission_denied, d)
  ]
]

-- What `ubusd_handle_add_object` reads of the type where the message has a signature: it follows
-- `obj->type` with no test.
unfoldable pub signature_type : Option (List Blob) → Option ℕ → Option (List Field)
signature_type none type = some []
signature_type (some _) none = none
signature_type (some _) (some t) = some (put_objtype t ∷ [])

-- `ubusd_handle_add_object`
unfoldable pub handle_add_object : Blobmsg → Handler
unfolding create_object find_object signature_type send_msg_from_blob
handle_add_object B cl ub d = do
  (obj, d1) ← create_object B cl ub.attrs d
  elim obj [
    | none ↦ some (status Status.invalid_argument, d1)
    | some id ↦ do
      o ← find_object id d1
      types ← signature_type ub.attrs.signature o.obj_type
      d2 ← send_msg_from_blob (some cl) ub MsgType.data_reply (put_objid id ∷ types) d1
      some (status Status.ok, d2)
  ]
