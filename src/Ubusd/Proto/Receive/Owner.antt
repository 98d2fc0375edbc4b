-- ===== src/Ubusd/Proto/Receive/Owner.antt =====
-- Only the client that owns an object can act for it.
use libubus_jni.Prelude.{
  ℕ, ◌≡◌, refl, ◌≢◌, Bool, true, false, Option, none, some, arith, Option-cases, inl, inr,
}
use libubus_jni.Ubusd.Message.{Blobmsg, MsgBuf, MsgType, Status}
use libubus_jni.Ubusd.State.{Daemon, Object, find_object, same_client, add_log, freed}
use libubus_jni.Ubusd.Proto.Reply.{Ret, status, consumed}
use libubus_jni.Ubusd.Proto.Objects.{handle_remove_object}
use libubus_jni.Ubusd.Proto.Call.{handle_notify, handle_response}
use libubus_jni.Ubusd.Proto.Watch.{
  handle_add_watch, handle_remove_watch, with_watch, add_watch, remove_watch,
}
use libubus_jni.Ubusd.Proto.Receive.{handle}

-- The requests that act for an object of the sender.
abbrev pub acts_for_object : MsgType → Bool
acts_for_object MsgType.remove_object = true
acts_for_object MsgType.notify = true
acts_for_object MsgType.subscribe = true
acts_for_object MsgType.unsubscribe = true
acts_for_object MsgType.status = true
acts_for_object MsgType.data_reply = true
acts_for_object _ = false

-- The message is refused: with an error status and no change of the state, or, if it is a response,
-- by freeing it and nothing else.
abbrev pub IsRefused : Daemon → Option (Ret × Daemon) → Type 0
IsRefused d none = ⊥
IsRefused d (some (status st, e)) = (st ≢ Status.ok) × (e ≡ d)
IsRefused d (some (consumed, e)) = e ≡ add_log freed d

same_client_comm : (b c : Option ℕ) → same_client b c ≡ same_client c b
unfolding same_client
same_client_comm none none = refl
same_client_comm none (some c) = refl
same_client_comm (some b) none = refl
same_client_comm (some b) (some c) = ground arith

same_client-ne : (b : Option ℕ) (c : ℕ) → b ≢ some c → same_client b (some c) ≡ false
unfolding same_client
same_client-ne none c h = refl
same_client-ne (some b) c h = ground arith

module _ (cl id : ℕ) (ub : MsgBuf) (d : Daemon) (o : Object) (hi : ub.attrs.objid ≡ some id)
    (ho : find_object id d ≡ some o) (hc : same_client o.client (some cl) ≡ false) where
  remove-foreign : handle_remove_object cl ub d ≡ some (status Status.permission_denied, d)
  unfolding handle_remove_object
  remove-foreign = rw (hi, handle_remove_object) (rw ho (rw hc))

  notify-foreign : IsRefused d (handle_notify cl ub d)
  unfolding handle_notify
  notify-foreign = elim (Option-cases ub.attrs.method) [
    | inl e ↦ rw (e, handle_notify) (ground arith, refl)
    | inr (m, e) ↦ rw (e, handle_notify) (rw hi (rw ho (rw hc (ground arith, refl))))
  ]

  add_watch-foreign : IsRefused d (handle_add_watch cl ub d)
  unfolding handle_add_watch
  add_watch-foreign =
      rw (hi, with_watch)
        (elim (Option-cases ub.attrs.target) [
          | inl e ↦ rw e (ground arith, refl)
          | inr (t, e) ↦ rw e (
              rw (ho, add_watch)
                (rw (same_client_comm (some cl) o.client, hc) (ground arith, refl)))
        ])

  remove_watch-foreign : IsRefused d (handle_remove_watch cl ub d)
  unfolding handle_remove_watch
  remove_watch-foreign =
      rw (hi, with_watch)
        (elim (Option-cases ub.attrs.target) [
          | inl e ↦ rw e (ground arith, refl)
          | inr (t, e) ↦ rw e (
              rw (ho, remove_watch)
                (rw (same_client_comm (some cl) o.client, hc) (ground arith, refl)))
        ])

  response-foreign : handle_response cl ub d ≡ some (consumed, add_log freed d)
  unfolding handle_response
  response-foreign = ground (arith, same_client_comm (some cl) o.client)

-- A client that does not own the object named in its message can neither remove it, notify through
-- it, subscribe or unsubscribe it, nor answer for it: the message is refused and changes nothing.
pub handle-foreign :
    (B : Blobmsg) (t : MsgType) (cl id : ℕ) (ub : MsgBuf) (d : Daemon) (o : Object)
    → acts_for_object t ≡ true
    → ub.attrs.objid ≡ some id
    → find_object id d ≡ some o
    → o.client ≢ some cl
    → IsRefused d (handle B t cl ub d)
unfolding handle
handle-foreign B t cl id ub d o a hi ho hc = go t a (same_client-ne o.client cl hc)
  where
    go :
        (t : MsgType)
        → acts_for_object t ≡ true
        → same_client o.client (some cl) ≡ false
        → IsRefused d (handle B t cl ub d)
    go MsgType.remove_object a hc = rw (remove-foreign cl id ub d o hi ho hc) (ground arith, refl)
    go MsgType.notify a hc = notify-foreign cl id ub d o hi ho hc
    go MsgType.subscribe a hc = add_watch-foreign cl id ub d o hi ho hc
    go MsgType.unsubscribe a hc = remove_watch-foreign cl id ub d o hi ho hc
    go MsgType.status a hc = rw (response-foreign cl id ub d o hi ho hc) refl
    go MsgType.data_reply a hc = rw (response-foreign cl id ub d o hi ho hc) refl
    go MsgType.hello a hc = absurd (ground arith)
    go _ a hc = absurd (ground arith)
