-- ===== src/Wrapper/Objects.antt =====
-- java_ubus_example/jni/ubus_wrapper.c: the table of the objects that Java adds.
pub mod Served
use libubus_jni.Prelude.{
  ℕ, ◌+◌, Bool, true, false, List, [], ◌∷◌, ◌++◌, Option, none, some, get_or, set, map, ltb, ◌==◌,
  ◌&&◌, ◌||◌, if◌then◌else◌, ◌>>=◌,
}
use libubus_jni.Libubox.Text.{CString}
use libubus_jni.Libubox.Tree.{update, id_ord}
use libubus_jni.Libubus.Object.{of_application, Method, Object, Host, object}
use libubus_jni.Libubus.Registry.{Answer, is_in}
use libubus_jni.Libubus.Registry
use libubus_jni.Wrapper.Outcome.{Outcome, ok, failed, crash}
use libubus_jni.Wrapper.Types.{
  Json, Sizes, TypeRow, Block, get_type_info, parse_object_type, fresh_block,
}
use libubus_jni.Wrapper.Types.Described.{Param}
use libubus_jni.Wrapper.Types.Held.{read_methods}
use libubus_jni.Wrapper.Calls.{without}
use libubus_jni.Wrapper.Incoming.{max_objects}

-- The static variables `_ubus_nobject` and `_ubus_use_bitmap`, and the blocks that `type` of the
-- objects points to, by their addresses; whether `bus_handle` is set, and what it points to. The array
-- `_ubus_objects` is in the memory there, each object under its index.
pub record Table : Type 0 where
  pub nobject : ℕ
  pub in_use : List Bool
  pub blocks : List (ℕ × (TypeRow × Block))
  pub connected : Bool
  pub host : Host

-- A result whose absence an assertion finds.
abbrev pub returned {ℓ} : {A : Type ℓ} → Outcome A → Option A
returned (ok a) = some a
returned failed = none
returned crash = none

-- A row of a type as libubus reads it; its `handler` is `dummy_defer_cb`.
abbrev pub deferring_method : CString × List Param → Method
deferring_method (name, ps) = record { name = some name; handler = of_application 0 }

-- The array that `methods` of a type points to.
unfoldable pub methods_of : Sizes → TypeRow → Block → Option (List Method)
methods_of S t m = do ms ← read_methods S m t.n_methods t.methods; some (map deferring_method ms)

-- What `ubus_wrap_add_object` writes to the object.
abbrev pub typed_object : CString → ℕ → List Method → Object → Object
typed_object name block fs o = record o { name = some name; ty = some block; methods = fs }

-- `ubus_wrap_add_object`, with `ubus_wrap_init` and `wrap_alloc_string`: `block` is what calloc gives,
-- `connects` whether ubus_connect does. `none` is an assertion that does not hold, or a pointer NULL
-- that is followed.
unfoldable pub add_object :
    Json → Sizes → ℕ → Bool → Answer → CString → CString → Table → Option (ℕ × Table)
unfolding methods_of
add_object lib S block connects answer name type_json T = do
  (total_size, info) ← returned (get_type_info lib S type_json)
  (t, m) ← returned (parse_object_type lib S type_json total_size (fresh_block S info))
  fs ← methods_of S t m
  (ret, h) ← Registry.add_object answer T.nobject (record T.host {
    memory = update T.nobject (typed_object name block fs) T.host.memory;
    types = (block, 0) ∷ T.host.types;
  })
  let T1 = record T {
    nobject = T.nobject + 1;
    in_use = set T.in_use T.nobject true;
    blocks = (block, (t, record m { texts = m.texts ++ ((total_size, name) ∷ []) })) ∷ T.blocks;
    connected = T.connected || connects;
    host = h;
  }
  let holds =
      ltb (T.nobject + 1) max_objects && ltb 0 total_size && (T.connected || connects) && (ret == 0)
  if holds then some (T.nobject, T1) else none

-- An object of zeros.
abbrev pub cleared_object : Object
cleared_object = record {
  id = 0;
  name = none;
  ty = none;
  methods = [];
  is_watch = false;
  has_subscribers = false;
  subscribe_cb = false;
  cb = false;
  remove_cb = false;
}

-- `ubus_wrap_remove_object`; `none` is an assertion that does not hold. It does not look at the tree
-- of libubus, which stays as it is here. A node of that tree is a part of its object: where the object
-- is filed, memset clears its node as well, which the model does not follow.
unfoldable pub remove_object : ℕ → Table → Option Table
unfolding without
remove_object id T = do
  o ← object id T.host
  let T1 = record T {
    blocks = elim o.ty as (λ _. List (ℕ × (TypeRow × Block))) [
      | none ↦ T.blocks
      | some block ↦ without {A = TypeRow × Block} block T.blocks
    ];
    in_use = set T.in_use id false;
    host = record T.host { memory = update id (λ _. cleared_object) T.host.memory };
  }
  if ltb id T.nobject && get_or T.in_use id false then some T1 else none
