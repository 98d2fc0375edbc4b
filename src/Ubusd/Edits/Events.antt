-- ===== src/Ubusd/Edits/Events.antt =====
-- The operations on events, as sequences of single changes.
use libubus_jni.Prelude.{
  ℕ, Bool, List, [], ◌∷◌, Option, none, some, Ensures, fault, ensured, >>=-Ensures, Ensures-mono,
  Ensures-any, if-Ensures, Option-cases, inl, inr, Bool-cases, ltb, ◌==◌, ◌>>=◌,
}
use libubus_jni.Libubox.Text.{CString}
use libubus_jni.Libubox.Tree.{find, id_ord}
use libubus_jni.Ubusd.Message.{Blob, Text, Blobmsg, Message, Status, system_object_max}
use libubus_jni.Ubusd.State.{Daemon, find_object, send_to, same_client, EventSource}
use libubus_jni.Ubusd.Event.{
  delete_event_source, event_cleanup_object, send_event_msg, send_event_loop, send_event, Fill,
  send_obj_event, add_event_source, register_pattern, alloc_event_pattern, publish_event,
  forward_event, event_recv, strmatch_len,
}
use libubus_jni.Ubusd.Edits.{
  Edits, done, next, Edits-trans, object_set, send, count, pattern_add, pattern_delete,
}

pub Edits-bind {ℓ} :
    {B : Type ℓ} {d : Daemon} {m : Option Daemon} {f : Daemon → Option B} (out : B → Daemon)
    → Ensures (Edits d) m
    → ((a : Daemon) → Ensures (λ b. Edits a (out b)) (f a))
    → Ensures (λ b. Edits d (out b)) (m >>= f)
Edits-bind out h k = >>=-Ensures h (λ a r. Ensures-mono (k a) (λ b s. Edits-trans r s))

pub Edits-after {ℓ} :
    {B : Type ℓ} {d e : Daemon} {m : Option B} {out : B → Daemon}
    → Edits d e
    → Ensures (λ b. Edits e (out b)) m
    → Ensures (λ b. Edits d (out b)) m
Edits-after r h = Ensures-mono h (λ b s. Edits-trans r s)

pub send_to-Edits : (c : Option ℕ) (m : Message) (d : Daemon) → Ensures (Edits d) (send_to c m d)
unfolding send_to
send_to-Edits none m d = fault
send_to-Edits (some c) m d = elim (Option-cases (find c d.clients)) [
  | inl e ↦ rw (e, send_to) fault
  | inr (x, e) ↦ rw (e, send_to) (ensured (next done (send c m)))
]

pub event_cleanup-Edits :
    (id : ℕ) (sources : List ℕ) (d : Daemon) → Edits d (event_cleanup_object id sources d)
unfolding event_cleanup_object
event_cleanup-Edits id [] d = done
event_cleanup-Edits id (a ∷ sources) d =
    Edits-trans (next (next done (object_set id _)) (pattern_delete a))
      (event_cleanup-Edits id sources (delete_event_source id a d))

pub send_event_msg-Edits :
    (cl : Option ℕ) (id : ℕ) (fill : Fill) (d : Daemon)
    → Ensures (Edits d) (send_event_msg cl id fill d)
unfolding send_event_msg
send_event_msg-Edits cl id fill d = >>=-Ensures (Ensures-any (find_object id d)) λ o _.
    if-Ensures (same_client o.client cl) (ensured done) (
      if-Ensures (o.event_seen == d.obj_event_seq) (ensured done)
        (Edits-after (next (next done (object_set id _)) (count _ _ _ _)) (send_to-Edits _ _ _)))

pub send_event_loop-Edits :
    (cl : Option ℕ) (name : CString) (fill : Fill) (len : ℕ) (t : List (CString × EventSource))
    (d : Daemon)
    → Ensures (Edits d) (send_event_loop cl name fill len t d)
unfolding send_event_loop
send_event_loop-Edits cl name fill len [] d = ensured done
send_event_loop-Edits cl name fill len ((key, ev) ∷ t) d =
    let cur = (strmatch_len name key).1 in
    if-Ensures (ltb cur len) (ensured done) (
      if-Ensures _ (send_event_loop-Edits cl name fill cur t d) (
        Edits-bind (λ x. x) (send_event_msg-Edits cl ev.obj fill d)
          (send_event_loop-Edits cl name fill cur t)))

pub send_event-Edits :
    (cl : Option ℕ) (name : CString) (fill : Fill) (d : Daemon)
    → Ensures (Edits d) (send_event cl name fill d)
unfolding send_event
send_event-Edits cl name fill d =
    Edits-after (next done (count _ _ _ _)) (send_event_loop-Edits cl name fill 0 d.patterns _)

pub send_obj_event-Edits :
    (id : ℕ) (path : CString) (add : Bool) (d : Daemon)
    → Ensures (Edits d) (send_obj_event id path add d)
unfolding send_obj_event
send_obj_event-Edits id path add d = send_event-Edits none _ _ d

pub register_pattern-Edits :
    (cl : ℕ) (p : Text) (id : ℕ) (d : Daemon) → Edits d (register_pattern cl p id d).1
unfolding register_pattern add_event_source
register_pattern-Edits cl p id d = elim (Bool-cases (ltb id system_object_max)) [
  | inl reserved ↦ rw reserved done
  | inr free ↦ rw free (elim (Option-cases (find_object id d)) [
    | inl e ↦ rw e done
    | inr (o, e) ↦ rw e (elim (Bool-cases (same_client o.client (some cl))) [
      | inl own ↦
          rw own (next (next (next done (object_set id _)) (pattern_add _ _)) (count _ _ _ _))
      | inr other ↦ rw other done
    ])
  ])
]

pub alloc_event_pattern-Edits :
    (B : Blobmsg) (cl : ℕ) (msg : Blob) (d : Daemon) → Edits d (alloc_event_pattern B cl msg d).1
unfolding alloc_event_pattern
alloc_event_pattern-Edits B cl msg d = go (B.parse_register msg).1 (B.parse_register msg).0
  where
    go :
        (i : Option ℕ) (p : Option Text)
        → let r : Status × Daemon = elim i [
          | none ↦ (Status.invalid_argument, d)
          | some id ↦ elim p [
            | none ↦ (Status.invalid_argument, d)
            | some t ↦ register_pattern cl t id d
          ]
        ] in
          Edits d r.1
    go none p = done
    go (some id) none = done
    go (some id) (some t) = register_pattern-Edits cl t id d

publish_event-Edits :
    (cl : ℕ) (id : CString) (payload : Blob) (d : Daemon)
    → Ensures (λ r. Edits d r.1) (publish_event cl id payload d)
unfolding publish_event
publish_event-Edits cl id payload d =
    if-Ensures _ (ensured done) (>>=-Ensures (send_event-Edits (some cl) id _ d) (λ e r. ensured r))

forward_event-Edits :
    (B : Blobmsg) (cl : ℕ) (msg : Blob) (d : Daemon)
    → Ensures (λ r. Edits d r.1) (forward_event B cl msg d)
unfolding forward_event
forward_event-Edits B cl msg d = go (B.parse_event msg).0 (B.parse_event msg).1
  where
    go :
        (i : Option CString) (p : Option Blob)
        → Ensures {A = Status × Daemon}
            (λ r. Edits d r.1)
            (elim i [
              | none ↦ some (Status.invalid_argument, d)
              | some id ↦ elim p [
                | none ↦ some (Status.invalid_argument, d)
                | some b ↦ publish_event cl id b d
              ]
            ])
    go none p = ensured done
    go (some id) none = ensured done
    go (some id) (some b) = publish_event-Edits cl id b d

pub event_recv-Edits :
    (B : Blobmsg) (cl : ℕ) (method : CString) (msg : Option Blob) (d : Daemon)
    → Ensures (λ r. Edits d r.1) (event_recv B cl method msg d)
unfolding event_recv
event_recv-Edits B cl method msg d =
    if-Ensures _
      (>>=-Ensures (Ensures-any msg) (λ m _. ensured (alloc_event_pattern-Edits B cl m d)))
      (if-Ensures _ (>>=-Ensures (Ensures-any msg) (λ m _. forward_event-Edits B cl m d))
        (ensured done))
