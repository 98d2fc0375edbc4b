-- ===== src/Ubusd/Event.antt =====
-- ubus/ubusd_event.c: registration of event patterns and delivery of events.
pub mod Match
pub mod Delivery
pub mod Once
use libubus_jni.Prelude.{
  ℕ, ◌+◌, ◌%◌, Bool, true, false, ◌&&◌, ◌||◌, List, [], ◌∷◌, Option, none, some, ◌==◌, ltb, length,
  not, if◌then◌else◌, ◌>>=◌, suc,
}
use libubus_jni.Libubox.Text.{CString, codes, str_eq, strncmp_eq, last_or, cut_last}
use libubus_jni.Libubox.Tree.{place, id_ord, string_ord}
use libubus_jni.Ubusd.Message.{
  Blob, Text, Field, put_objid, put_method, put_data, put_object_data, built, MsgType, Message,
  Blobmsg, Status, system_object_max, u16_mod, u32_mod,
}
use libubus_jni.Ubusd.State.{
  EventSource, Daemon, find_object, set_object, send_to, same_client, remove_first,
}

-- `avl_delete` of the source at one address.
unfoldable pub delete_at : ℕ → List (CString × EventSource) → List (CString × EventSource)
delete_at a [] = []
delete_at a ((k, ev) ∷ t) = if a == ev.address then t else (k, ev) ∷ delete_at a t

-- `ubusd_delete_event_source`: off the object's list, then out of the tree.
unfoldable pub delete_event_source : ℕ → ℕ → Daemon → Daemon
unfolding delete_at set_object remove_first
delete_event_source id a d =
    let d1 = set_object id (λ o. record o { events = remove_first a o.events }) d in
    record d1 { patterns = delete_at a d1.patterns }

-- `ubusd_event_cleanup_object`: each round takes the first entry of `obj->events`, which the round
-- before has left there; `sources` is that list.
unfoldable pub event_cleanup_object : ℕ → List ℕ → Daemon → Daemon
unfolding delete_event_source
event_cleanup_object id [] d = d
event_cleanup_object id (a ∷ sources) d =
    event_cleanup_object id sources (delete_event_source id a d)

-- `strmatch_len`: whether the strings are equal, and how many characters they have in common.
unfoldable pub strmatch_len : CString → CString → Bool × ℕ
strmatch_len [] [] = (true, 0)
strmatch_len [] (y ∷ ys) = (false, 0)
strmatch_len (x ∷ xs) [] = (false, 0)
strmatch_len (x ∷ xs) (y ∷ ys) =
    let rest = strmatch_len xs ys in if x == y then (rest.0, suc rest.1) else (false, 0)

-- The message that `fill_cb` builds, as it is sent to one object.
abbrev pub Fill : Type 0
Fill = List Field

-- `ubusd_send_event_msg`. The shared message is built once; what is sent differs in the object's
-- id and in the sequence number.
unfoldable pub send_event_msg : Option ℕ → ℕ → Fill → Daemon → Option Daemon
unfolding find_object set_object same_client send_to
send_event_msg cl id fill d = do
  o ← find_object id d
  let seq = (d.event_seq + 1) % u32_mod
  let d1 = set_object id (λ r. record r { event_seen = d.obj_event_seq }) d
  let msg : Message = record {
    msg_type = MsgType.invoke;
    seq = seq % u16_mod;
    peer = 0;
    fd = none;
    body = built (put_objid id ∷ fill);
  }
  if same_client o.client cl
      then some d
      else if o.event_seen == d.obj_event_seq
      then some d
      else send_to o.client msg (record d1 { event_seq = seq })

-- The loop of `ubusd_send_event` over the sorted patterns.
unfoldable pub send_event_loop :
    Option ℕ → CString → Fill → ℕ → List (CString × EventSource) → Daemon → Option Daemon
unfolding strmatch_len
send_event_loop cl id fill match_len [] d = some d
send_event_loop cl id fill match_len ((key, ev) ∷ t) d =
    let (full, cur) = strmatch_len id key in
    let next = send_event_loop cl id fill cur t in
    if ltb cur match_len
    then some d
    else if not full && (not ev.partial || not (cur == length key))
    then next d
    else (send_event_msg cl ev.obj fill d >>= next)

-- `ubusd_send_event`
unfoldable pub send_event : Option ℕ → CString → Fill → Daemon → Option Daemon
unfolding send_event_loop
send_event cl id fill d =
    send_event_loop cl id fill 0 d.patterns
      (record d { obj_event_seq = (d.obj_event_seq + 1) % u32_mod })

-- `ubusd_create_object_event_msg` and `ubusd_send_obj_event`, with the object's path.
unfoldable pub send_obj_event : ℕ → CString → Bool → Daemon → Option Daemon
unfolding send_event
send_obj_event id path add d =
    let name = if add then codes "ubus.object.add" else codes "ubus.object.remove" in
    send_event none name (put_method name ∷ put_object_data id path ∷ []) d

-- The part of `ubusd_alloc_event_pattern` behind its guards.
unfoldable pub add_event_source : ℕ → Text → Daemon → Daemon
unfolding last_or cut_last set_object place
add_event_source id pattern d =
    let partial = last_or pattern.before pattern.chars == b'*' in
    let name = if partial then cut_last pattern.chars else pattern.chars in
    let a = d.next_address in
    let d1 = set_object id (λ o. record o { events = a ∷ o.events }) d in
    record d1 {
      patterns = place name (record { address = a; obj = id; partial = partial }) d1.patterns;
      next_address = suc a;
    }

-- `ubusd_alloc_event_pattern` with both attributes there.
unfoldable pub register_pattern : ℕ → Text → ℕ → Daemon → Status × Daemon
unfolding find_object same_client add_event_source
register_pattern cl pattern id d =
    if ltb id system_object_max then (Status.permission_denied, d) else elim (find_object id d) [
      | none ↦ (Status.not_found, d)
      | some o ↦
          if same_client o.client (some cl)
          then (Status.ok, add_event_source id pattern d)
          else (Status.permission_denied, d)
    ]

-- `ubusd_alloc_event_pattern`
unfoldable pub alloc_event_pattern : Blobmsg → ℕ → Blob → Daemon → Status × Daemon
unfolding register_pattern
alloc_event_pattern B cl msg d =
    let (pattern, id) = B.parse_register msg in
    elim id [
      | none ↦ (Status.invalid_argument, d)
      | some i ↦ elim pattern [
        | none ↦ (Status.invalid_argument, d)
        | some p ↦ register_pattern cl p i d
      ]
    ]

-- `ubusd_forward_event` with both attributes there, and `ubusd_create_event_from_msg`.
unfoldable pub publish_event : ℕ → CString → Blob → Daemon → Option (Status × Daemon)
unfolding strncmp_eq send_event
publish_event cl id payload d =
    if strncmp_eq id (codes "ubus.") 5
    then some (Status.permission_denied, d)
    else (send_event (some cl) id (put_method id ∷ put_data payload ∷ []) d >>= λ d'.
        some (Status.ok, d'))

-- `ubusd_forward_event`
unfoldable pub forward_event : Blobmsg → ℕ → Blob → Daemon → Option (Status × Daemon)
unfolding publish_event
forward_event B cl msg d =
    let (id, payload) = B.parse_event msg in
    elim id [
      | none ↦ some (Status.invalid_argument, d)
      | some i ↦ elim payload [
        | none ↦ some (Status.invalid_argument, d)
        | some p ↦ publish_event cl i p d
      ]
    ]

-- `ubusd_event_recv`. Without a payload `msg` is NULL, and `blob_len(msg)` follows it.
unfoldable pub event_recv : Blobmsg → ℕ → CString → Option Blob → Daemon → Option (Status × Daemon)
unfolding str_eq alloc_event_pattern forward_event
event_recv B cl method msg d =
    if str_eq method (codes "register")
    then (msg >>= λ m. some (alloc_event_pattern B cl m d))
    else if str_eq method (codes "send")
    then (msg >>= λ m. forward_event B cl m d)
    else some (Status.invalid_command, d)
