-- ===== src/Ubusd/Subscription.antt =====
-- ubus/ubusd_obj.c: subscriptions; and the two notifications of ubusd_proto.c about them.
use libubus_jni.Prelude.{
  ℕ, ◌+◌, ◌%◌, Bool, true, false, List, [], ◌∷◌, Option, none, some, if◌then◌else◌, ◌>>=◌, not,
}
use libubus_jni.Libubox.Tree.{id_ord, string_ord}
use libubus_jni.Ubusd.Message.{
  put_objid, put_target, put_active, built, MsgType, Message, u16_mod, u32_mod,
}
use libubus_jni.Ubusd.State.{Daemon, find_object, set_object, send_to, remove_first}

abbrev pub is_empty : List ℕ → Bool
is_empty [] = true
is_empty (x ∷ xs) = false

-- `ubus_notify_subscription`
unfoldable pub notify_subscription : ℕ → Daemon → Option Daemon
unfolding find_object set_object send_to
notify_subscription id d = do
  o ← find_object id d
  let seq = (o.invoke_seq + 1) % u32_mod
  let d1 = set_object id (λ r. record r { invoke_seq = seq }) d
  let msg : Message = record {
    msg_type = MsgType.notify;
    seq = seq % u16_mod;
    peer = 0;
    fd = none;
    body = built (put_objid id ∷ put_active (not (is_empty o.subscribers)) ∷ []);
  }
  send_to o.client msg d1

-- A new subscription, on both lists.
unfoldable pub link_subscription : ℕ → ℕ → Daemon → Daemon
unfolding set_object
link_subscription obj target d =
    let d1 = set_object target (λ r. record r { subscribers = obj ∷ r.subscribers }) d in
    set_object obj (λ r. record r { target_list = target ∷ r.target_list }) d1

-- `ubus_subscribe`
unfoldable pub subscribe : ℕ → ℕ → Daemon → Option Daemon
unfolding find_object link_subscription notify_subscription
subscribe obj target d = do
  t ← find_object target d
  let d1 = link_subscription obj target d
  if is_empty t.subscribers then notify_subscription target d1 else some d1

-- A subscription off both lists.
unfoldable pub unlink_subscription : ℕ → ℕ → Daemon → Daemon
unfolding set_object remove_first
unlink_subscription obj target d =
    let d1 = set_object target (λ r. record r { subscribers = remove_first obj r.subscribers }) d in
    set_object obj (λ r. record r { target_list = remove_first target r.target_list }) d1

-- `ubus_unsubscribe`: the subscription of the first object to the second.
unfoldable pub unsubscribe : ℕ → ℕ → Daemon → Option Daemon
unfolding find_object unlink_subscription notify_subscription
unsubscribe obj target d = do
  let d1 = unlink_subscription obj target d
  t ← find_object target d1
  if is_empty t.subscribers then notify_subscription target d1 else some d1

-- `ubus_notify_unsubscribe`
unfoldable pub notify_unsubscribe : ℕ → ℕ → Daemon → Option Daemon
unfolding find_object set_object send_to unsubscribe
notify_unsubscribe obj target d = do
  o ← find_object obj d
  let seq = (o.invoke_seq + 1) % u32_mod
  let d1 = set_object obj (λ r. record r { invoke_seq = seq }) d
  let msg : Message = record {
    msg_type = MsgType.unsubscribe;
    seq = seq % u16_mod;
    peer = 0;
    fd = none;
    body = built (put_objid obj ∷ put_target target ∷ []);
  }
  d2 ← send_to o.client msg d1
  unsubscribe obj target d2

-- The first loop of `ubusd_free_object`, over the object's `target_list`.
unfoldable pub unsubscribe_all : ℕ → List ℕ → Daemon → Option Daemon
unfolding unsubscribe
unsubscribe_all id [] d = some d
unsubscribe_all id (t ∷ ts) d = unsubscribe id t d >>= unsubscribe_all id ts

-- The second loop, over the object's `subscribers`.
unfoldable pub notify_unsubscribe_all : ℕ → List ℕ → Daemon → Option Daemon
unfolding notify_unsubscribe
notify_unsubscribe_all id [] d = some d
notify_unsubscribe_all id (s ∷ ss) d = notify_unsubscribe s id d >>= notify_unsubscribe_all id ss
