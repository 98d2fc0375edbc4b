-- ===== src/Libubus/Object/Samples.antt =====
-- An object and a client that the tests share.
use libubus_jni.Prelude.{ℕ, true, false, [], ◌∷◌, none, some}
use libubus_jni.Libubox.Text.{codes}
use libubus_jni.Libubus.Object.{of_application, Method, Object, Host}

abbrev pub down : Method
down = record { name = some (codes "down"); handler = of_application 1 }

abbrev pub up : Method
up = record { name = some (codes "up"); handler = of_application 2 }

abbrev pub net : Object
net = record {
  id = 2000;
  name = some (codes "net");
  ty = none;
  methods = down ∷ up ∷ [];
  is_watch = false;
  has_subscribers = false;
  subscribe_cb = false;
  cb = false;
  remove_cb = false;
}

abbrev pub client : ℕ → Host
client depth = record {
  memory = (64, net) ∷ [];
  objects = (2000, 64) ∷ [];
  types = [];
  stack_depth = depth;
  pending = [];
  registered = true;
  pending_timer = false;
  msgbuf = some 7;
  freed = [];
  sent = [];
}
