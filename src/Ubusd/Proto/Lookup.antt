-- ===== src/Ubusd/Proto/Lookup.antt =====
-- ubus/ubusd_proto.c: objects looked up by their paths.
pub mod Prefix
use libubus_jni.Prelude.{
  ℕ, Bool, true, false, List, [], ◌∷◌, Option, none, some, ◌==◌, if◌then◌else◌, ◌>>=◌, not,
}
use libubus_jni.Libubox.Text.{CString, strncmp_eq, last_or, cut_last, cut_length}
use libubus_jni.Libubox.Tree.{find, find_ge, id_ord, string_ord}
use libubus_jni.Ubusd.Message.{
  Field, put_objid, put_objtype, put_objpath, put_signature, MsgType, MsgBuf, Status,
}
use libubus_jni.Ubusd.State.{Daemon, find_object}
use libubus_jni.Ubusd.Proto.Reply.{Ret, status, Handler, send_msg_from_blob}

abbrev pub path_field : Option CString → List Field → List Field
path_field none fs = fs
path_field (some p) fs = put_objpath p ∷ fs

-- `ubusd_send_obj`; it follows `obj->type` with no test.
unfoldable pub send_obj : ℕ → MsgBuf → ℕ → Daemon → Option Daemon
unfolding find_object send_msg_from_blob
send_obj cl ub id d = do
  o ← find_object id d
  t ← o.obj_type
  ty ← find t d.obj_types
  let fields = path_field o.path (put_objid id ∷ put_objtype t ∷ put_signature ty.methods ∷ [])
  send_msg_from_blob (some cl) ub MsgType.data_reply fields d

-- `avl_for_each_element(&path, obj, path)` of `ubusd_handle_lookup`
unfoldable pub send_objs : ℕ → MsgBuf → List (CString × ℕ) → Daemon → Option Daemon
unfolding send_obj
send_objs cl ub [] d = some d
send_objs cl ub ((p, id) ∷ t) d = send_obj cl ub id d >>= send_objs cl ub t

-- The while loop of `ubusd_handle_lookup` from one element of the tree on, with `found`. It ends
-- at the last element or at a path that does not begin with the given characters.
unfoldable pub send_matching :
    ℕ → MsgBuf → CString → ℕ → Bool → List (CString × ℕ) → Daemon → Option (Bool × Daemon)
unfolding strncmp_eq send_obj
send_matching cl ub prefix len found [] d = some (found, d)
send_matching cl ub prefix len found ((p, id) ∷ t) d =
    let next = send_obj cl ub id d >>= send_matching cl ub prefix len true t in
    if strncmp_eq prefix p len then next else some (found, d)

abbrev pub found_or : Option (Bool × Daemon) → Option (Ret × Daemon)
found_or r = do (found, d) ← r; some (status (if found then Status.ok else Status.not_found), d)

-- `ubusd_handle_lookup`
unfoldable pub handle_lookup : Handler
unfolding last_or cut_last cut_length send_objs send_obj send_matching find_ge find
handle_lookup cl ub d = elim ub.attrs.objpath [
  | none ↦ send_objs cl ub d.path d >>= λ d1. some (status Status.ok, d1)
  | some p ↦
      let exact : Option (Ret × Daemon) = elim (find p.chars d.path) [
        | none ↦ some (status Status.not_found, d)
        | some id ↦ send_obj cl ub id d >>= λ d1. some (status Status.ok, d1)
      ] in
      let prefix = cut_last p.chars in
      if not (last_or p.before p.chars == b'*')
      then exact
      else found_or
          (send_matching cl ub prefix (cut_length p.chars) false (find_ge prefix d.path) d)
]
