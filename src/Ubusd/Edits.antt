-- ===== src/Ubusd/Edits.antt =====
-- The single changes of which every operation of ubusd is made, and their sequences. An invariant
-- that each change keeps is kept by every operation.
pub mod Events
pub mod Objects
pub mod Outcome
pub mod Owned
pub mod Calling
pub mod Handlers
pub mod Clients
pub mod Ordered
pub mod Freed
use libubus_jni.Prelude.{ℕ, ◌≡◌, List, Option, none, some}
use libubus_jni.Libubox.Text.{CString}
use libubus_jni.Libubox.Tree.{find, place, update, delete, id_ord, string_ord}
use libubus_jni.Ubusd.Message.{Message}
use libubus_jni.Ubusd.State.{
  Object, ObjectType, EventSource, Client, Daemon, sent, closed, set_object, add_log,
}
use libubus_jni.Ubusd.Event.{delete_at}

pub data Edit (d : Daemon) : Daemon → Type 0 where
  object_set :
      (id : ℕ) (f : Object → Object) → Edit d (record d { objects = update id f d.objects })
  object_add :
      (id : ℕ) (o : Object)
      → find id d.objects ≡ none
      → Edit d (record d { objects = place id o d.objects })
  object_delete : (id : ℕ) → Edit d (record d { objects = delete id d.objects })
  type_set :
      (t : ℕ) (f : ObjectType → ObjectType)
      → Edit d (record d { obj_types = update t f d.obj_types })
  type_add :
      (t : ℕ) (ty : ObjectType)
      → find t d.obj_types ≡ none
      → Edit d (record d { obj_types = place t ty d.obj_types })
  type_delete : (t : ℕ) → Edit d (record d { obj_types = delete t d.obj_types })
  client_set : (c : ℕ) (f : Client → Client) → Edit d (record d { clients = update c f d.clients })
  client_add :
      (c : ℕ) (x : Client)
      → find c d.clients ≡ none
      → Edit d (record d { clients = place c x d.clients })
  client_delete : (c : ℕ) → Edit d (record d { clients = delete c d.clients })
  path_add :
      (p : CString) (id : ℕ) → find p d.path ≡ none → Edit d (record d { path = place p id d.path })
  path_delete : (p : CString) → Edit d (record d { path = delete p d.path })
  pattern_add :
      (k : CString) (ev : EventSource) → Edit d (record d { patterns = place k ev d.patterns })
  pattern_delete : (a : ℕ) → Edit d (record d { patterns = delete_at a d.patterns })
  count :
      (s e a : ℕ) (r : List ℕ)
      → Edit d (record d { event_seq = s; obj_event_seq = e; next_address = a; random = r })
  send : (c : ℕ) (m : Message) → Edit d (add_log (sent c m) d)
  close : (fd : ℕ) → Edit d (add_log (closed fd) d)

pub data Edits (d : Daemon) : Daemon → Type 0 where
  done : Edits d d
  next : {e f : Daemon} → Edits d e → Edit e f → Edits d f

pub Edits-trans : {d e f : Daemon} → Edits d e → Edits e f → Edits d f
Edits-trans r done = r
Edits-trans r (next s x) = next (Edits-trans r s) x
