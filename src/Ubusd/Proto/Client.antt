-- ===== src/Ubusd/Proto/Client.antt =====
-- ubus/ubusd_proto.c: clients that come and go; and what the constructors of ubusd set up.
use libubus_jni.Prelude.{ℕ, ◌+◌, true, List, [], ◌∷◌, Option, none, some, ◌>>=◌, suc, zero, length}
use libubus_jni.Libubox.Tree.{find, delete, id_ord, string_ord}
use libubus_jni.Ubusd.Message.{system_object_event}
use libubus_jni.Ubusd.State.{Daemon, set_object}
use libubus_jni.Ubusd.Id.{alloc_id}
use libubus_jni.Ubusd.Object.{create_object_internal, free_object}
use libubus_jni.Ubusd.Proto.Reply.{send_hello}

-- `ubusd_proto_new_client`
unfoldable pub new_client : Daemon → Option (Option ℕ × Daemon)
unfolding send_hello
new_client d =
    let (new, random) = alloc_id 0 (record { objects = [] }) d.clients d.random in
    elim new [
      | none ↦ some (none, record d { random = random })
      | some (c, clients) ↦
          send_hello c (record d { clients = clients; random = random }) >>= λ d1. some (some c, d1)
    ]

-- The while loop of `ubusd_proto_free_client`, on fuel; `none` also when the fuel runs out.
unfoldable pub free_objects : ℕ → ℕ → Daemon → Option Daemon
unfolding free_object
free_objects zero cl d = none
free_objects (suc fuel) cl d = do
  c ← find cl d.clients
  elim c.objects [ [] ↦ some d | id ∷ _ ↦ free_object id d >>= free_objects fuel cl ]

-- `ubusd_proto_free_client`
unfoldable pub free_client : ℕ → Daemon → Option Daemon
unfolding free_objects
free_client cl d = do
  c ← find cl d.clients
  d1 ← free_objects (length c.objects + 1) cl d
  some (record d1 { clients = delete cl d1.clients })

-- `ubusd_obj_init`, `ubusd_event_init` and `ubusd_proto_init`: empty trees and the event object.
unfoldable pub init : List ℕ → Daemon
unfolding create_object_internal set_object
init random =
    let (obj, d) = create_object_internal none system_object_event (record {
      objects = [];
      obj_types = [];
      path = [];
      patterns = [];
      clients = [];
      event_seq = 0;
      obj_event_seq = 1;
      next_address = 0;
      random = random;
      log = [];
    }) in
    elim obj [ none ↦ d | some id ↦ set_object id (λ o. record o { recv_msg = true }) d ]
