-- ===== src/Ubusd/Run.antt =====
-- ubusd at work: what its event loop lets happen to the state, and the states that can be reached.
use libubus_jni.Prelude.{ℕ, ◌≡◌, List, Option, some}
use libubus_jni.Ubusd.Message.{Blobmsg, MsgBuf}
use libubus_jni.Ubusd.State.{Daemon}
use libubus_jni.Ubusd.Proto.Receive.{receive_message}
use libubus_jni.Ubusd.Proto.Client.{new_client, free_client, init}

-- A client connects, a message of a client comes in, or a client's connection ends. A step whose
-- code faults leads nowhere.
pub data Step (B : Blobmsg) (d e : Daemon) : Type 0 where
  connect : (c : Option ℕ) → new_client d ≡ some (c, e) → Step B d e
  message : (cl : ℕ) (ub : MsgBuf) → receive_message B cl ub d ≡ some e → Step B d e
  disconnect : (cl : ℕ) → free_client cl d ≡ some e → Step B d e

pub data Reach (B : Blobmsg) (random : List ℕ) : Daemon → Type 0 where
  start : Reach B random (init random)
  step : {d e : Daemon} → Reach B random d → Step B d e → Reach B random e
