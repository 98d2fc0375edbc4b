-- ===== src/Libubus/Registry/Samples.antt =====
-- Objects of a client, and new ids for them.
use libubus_jni.Prelude.{ℕ, List, [], ◌∷◌, none, some}
use libubus_jni.Libubox.Text.{codes}
use libubus_jni.Libubus.Object.{Object, Host}
use libubus_jni.Libubus.Object.Samples.{net, client}
use libubus_jni.Libubus.Registry.{Reply}

abbrev pub new_id : ℕ → Reply
new_id id = record { objid = some id; objpath = none; objtype = none; signature = none }

-- Two objects, one of a type.
abbrev pub dhcp : Object
dhcp = record net { id = 1500; name = some (codes "dhcp"); ty = some 9 }

abbrev pub two_objects : Host
two_objects = record (client 0) {
  memory = (64, net) ∷ (80, dhcp) ∷ [];
  objects = (1500, 80) ∷ (2000, 64) ∷ [];
  types = (9, 77) ∷ [];
}

abbrev pub new_ids : List (ℕ × Reply)
new_ids = (4000, record (new_id 4000) { objtype = some 78 }) ∷ (3000, new_id 3000) ∷ []
