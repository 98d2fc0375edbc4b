-- ===== src/Ubusd/ObjType.antt =====
-- ubus/ubusd_obj.c: object types and their reference counts.
use libubus_jni.Prelude.{
  ℕ, ◌+◌, ◌-◌, Bool, true, false, List, [], ◌∷◌, ◌++◌, Option, none, some, ltb, if◌then◌else◌,
  ◌>>=◌,
}
use libubus_jni.Libubox.Tree.{find, delete, update, id_ord, string_ord}
use libubus_jni.Ubusd.Message.{Blob, Blobmsg}
use libubus_jni.Ubusd.State.{ObjectType, Daemon}
use libubus_jni.Ubusd.Id.{alloc_id}

abbrev pub set_type : ℕ → (ObjectType → ObjectType) → Daemon → Daemon
set_type t f d = record d { obj_types = update t f d.obj_types }

-- `ubus_unref_object_type`. The methods go with the type.
unfoldable pub unref_object_type : ℕ → Daemon → Option Daemon
unref_object_type t d = do
  ty ← find t d.obj_types
  let count = ty.refcount - 1
  if ltb 0 count
      then some (set_type t (λ r. record r { refcount = count }) d)
      else some (record d { obj_types = delete t d.obj_types })

-- `ubus_create_obj_method`
unfoldable pub create_obj_method : ℕ → Blob → Daemon → Daemon
create_obj_method t b = set_type t (λ r. record r { methods = r.methods ++ (b ∷ []) })

-- The loop of `ubus_create_obj_type`; `false` is its jump to `error_unref`.
unfoldable pub add_methods : Blobmsg → ℕ → List Blob → Daemon → Bool × Daemon
unfolding create_obj_method
add_methods B t [] d = (true, d)
add_methods B t (b ∷ bs) d =
    let rest = add_methods B t bs (create_obj_method t b d) in
    if B.check_attr b then rest else (false, d)

-- `ubus_create_obj_type`
unfoldable pub create_obj_type : Blobmsg → List Blob → Daemon → Option (Option ℕ × Daemon)
unfolding add_methods unref_object_type
create_obj_type B sig d =
    let (new, random) = alloc_id 0 (record { refcount = 1; methods = [] }) d.obj_types d.random in
    elim new [
      | none ↦ some (none, record d { random = random })
      | some (t, types) ↦
          let (done, d1) = add_methods B t sig (record d { obj_types = types; random = random }) in
          if done then some (some t, d1) else (unref_object_type t d1 >>= λ d2. some (none, d2))
    ]

-- `ubus_get_obj_type`
unfoldable pub get_obj_type : ℕ → Daemon → Option ℕ × Daemon
get_obj_type t d = elim (find t d.obj_types) [
  | none ↦ (none, d)
  | some _ ↦ (some t, set_type t (λ r. record r { refcount = r.refcount + 1 }) d)
]
