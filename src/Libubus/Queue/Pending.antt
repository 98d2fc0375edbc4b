-- ===== src/Libubus/Queue/Pending.antt =====
-- Messages that come in during a request (ubus/libubus.c).
use mathlib.Core.List.{reverse, reverse_aux}
use libubus_jni.Prelude.{
  ℕ, zero, suc, ◌+◌, ◌<◌, ◌≡◌, refl, ap, ◌∙◌, arith, Bool, true, false, List, [], ◌∷◌, Option, some,
  if◌then◌else◌, ◌>>=◌, ◌==◌, suc_ne, length,
}
use libubus_jni.Ubusd.Message.{MsgType}
use libubus_jni.Libubus.Object.{object, ObjMsg, Host, Program, process_obj_msg}
use libubus_jni.Libubus.Queue.{process_msg, queue_msg, process_pending_msg}
use libubus_jni.Libubus.Object.Keeps.{
  InMemory, IsQuiet, Keeps, Gives-some, process_obj_msg-Keeps, Keeps-refl, Gives,
}

later-Gives :
    (Q : Host → Type 0) (t : MsgType) (later : Option Host) (a h : Host)
    → Gives Q later
    → Q a
    → Q h
    → Gives Q (elim t as (λ _. Option Host) [
      | MsgType.status ↦ some a
      | MsgType.data_reply ↦ some a
      | MsgType.invoke ↦ later
      | MsgType.unsubscribe ↦ later
      | MsgType.notify ↦ later
      | _ ↦ some h
    ])
later-Gives Q MsgType.status later a h ql qa qh = qa
later-Gives Q MsgType.data_reply later a h ql qa qh = qa
later-Gives Q MsgType.invoke later a h ql qa qh = ql
later-Gives Q MsgType.unsubscribe later a h ql qa qh = ql
later-Gives Q MsgType.notify later a h ql qa qh = ql
later-Gives Q _ later a h ql qa qh = qh

if-Gives :
    (Q : Host → Type 0) (b : Bool) (r s : Option Host)
    → b ≡ true
    → Gives Q r
    → Gives Q (if b then r else s)
if-Gives Q true r s e q = q
if-Gives Q false r s e q = absurd (ground arith)

process_msg-Keeps :
    (P : Program) (quiet : IsQuiet P) (m : ObjMsg) (h : Host)
    → InMemory h
    → h.stack_depth ≡ 0
    → Gives (Keeps h) (process_msg false P m h)
unfolding process_msg
process_msg-Keeps P quiet m h i e =
    later-Gives (Keeps h) m.msg_type _ _ h
      (if-Gives (Keeps h) (h.stack_depth == 0) _ _ (ground arith)
        (process_obj_msg-Keeps P quiet m h i))
      (quiet.answer m h) (Keeps-refl h)

-- These messages are processed, each once and in this order, with nothing left on the list.
pub data Processes (P : Program) : List ObjMsg → Host → Host → Type 0 where
  all_done : {h : Host} → h.pending ≡ [] → Processes P [] h h
  step :
      {m : ObjMsg} {ms : List ObjMsg} {h h1 h2 : Host}
      → h.pending ≡ m ∷ ms
      → process_msg false P m (record h { pending = ms }) ≡ some h1
      → Processes P ms h1 h2
      → Processes P (m ∷ ms) h h2

-- One round of the loop.
process_pending_msg-step :
    (P : Program) (fuel : ℕ) (h h1 : Host) (m : ObjMsg) (ms : List ObjMsg)
    → h.pending ≡ m ∷ ms
    → h.stack_depth ≡ 0
    → process_msg false P m (record h { pending = ms }) ≡ some h1
    → process_pending_msg (suc fuel) P h ≡ process_pending_msg fuel P h1
unfolding process_pending_msg
process_pending_msg-step P fuel h h1 m ms e d r =
    ap
      (λ l. elim l as (λ _. Option Host) [
        | [] ↦ some h
        | ◌∷◌ x xs ↦
            if h.stack_depth == 0
            then (process_msg false P x (record h { pending = xs }) >>= process_pending_msg fuel P)
            else some h
      ])
      e
    ∙ ap
        (λ n.
          if n == 0
          then (process_msg false P m (record h { pending = ms }) >>= process_pending_msg fuel P)
          else some h)
        d
    ∙ ap (λ x. x >>= process_pending_msg fuel P) r

pub process_pending_msg-Processes :
    (P : Program)
    → IsQuiet P
    → (ms : List ObjMsg) (fuel : ℕ) (h : Host) → h.pending ≡ ms
    → InMemory h
    → h.stack_depth ≡ 0
    → length ms < fuel
    → (h2 : Host) × (process_pending_msg fuel P h ≡ some h2) × Processes P ms h h2
unfolding process_pending_msg object
process_pending_msg-Processes P quiet ms zero h e i d l = absurd (omega arith)
process_pending_msg-Processes P quiet [] (suc fuel) h e i d l =
    (h, simp (e, process_pending_msg) refl, all_done e)
process_pending_msg-Processes P quiet (m ∷ ms) (suc fuel) h e i d l =
    let h0 : Host = record h { pending = ms } in
    let (h1, r, k) =
      Gives-some (Keeps h0) (process_msg false P m h0) (process_msg-Keeps P quiet m h0 i d) in
    let (h2, r2, all) =
      process_pending_msg-Processes P quiet ms fuel h1 k.pending (k.memory i) (k.depth ∙ d)
        (omega arith) in
    (h2, process_pending_msg-step P fuel h h1 m ms e d r ∙ r2, step e r all)

-- A message that waits while a request does.
abbrev pub IsForObject : MsgType → Type 0
IsForObject MsgType.invoke = Unit
IsForObject MsgType.unsubscribe = Unit
IsForObject MsgType.notify = Unit
IsForObject _ = ⊥

abbrev pub AllForObjects : List ObjMsg → Type 0
AllForObjects [] = Unit
AllForObjects (m ∷ ms) = IsForObject m.msg_type × AllForObjects ms

-- `ubus_handle_data` hands the messages on one after the other.
unfoldable pub receive_all : Program → List ObjMsg → Host → Option Host
receive_all P [] h = some h
receive_all P (m ∷ ms) h = process_msg true P m h >>= receive_all P ms

later-queued :
    (t : MsgType) (now later h : Option Host)
    → IsForObject t
    → elim t as (λ _. Option Host) [
      | MsgType.status ↦ now
      | MsgType.data_reply ↦ now
      | MsgType.invoke ↦ later
      | MsgType.unsubscribe ↦ later
      | MsgType.notify ↦ later
      | _ ↦ h
    ]
      ≡ later
later-queued MsgType.invoke now later h f = refl
later-queued MsgType.unsubscribe now later h f = refl
later-queued MsgType.notify now later h f = refl
later-queued MsgType.hello now later h f = absurd f
later-queued MsgType.status now later h f = absurd f
later-queued MsgType.data_reply now later h f = absurd f
later-queued MsgType.ping now later h f = absurd f
later-queued MsgType.lookup now later h f = absurd f
later-queued MsgType.add_object now later h f = absurd f
later-queued MsgType.remove_object now later h f = absurd f
later-queued MsgType.subscribe now later h f = absurd f
later-queued (MsgType.unknown x) now later h f = absurd f

process_msg-queued :
    (P : Program) (m : ObjMsg) (h : Host) (n : ℕ)
    → IsForObject m.msg_type
    → h.stack_depth ≡ suc n
    → process_msg true P m h ≡ some (queue_msg m h)
unfolding process_msg
process_msg-queued P m h n f d =
    later-queued m.msg_type _ _ _ f
    ∙ ap (λ k. if k == 0 then process_obj_msg true P m h else some (queue_msg m h)) d
    ∙ ap (λ b. if b then process_obj_msg true P m h else some (queue_msg m h)) (suc_ne n)

receive_all_lem :
    (P : Program) (ms : List ObjMsg) (h : Host) (n : ℕ)
    → AllForObjects ms
    → h.stack_depth ≡ suc n
    → InMemory h
    → (h1 : Host) × (receive_all P ms h ≡ some h1)
      × (h1 ≡ record h { pending = reverse_aux ms h.pending; pending_timer = h1.pending_timer })
      × InMemory h1
unfolding receive_all queue_msg object
receive_all_lem P [] h n a d i = (h, refl, refl, i)
receive_all_lem P (m ∷ ms) h n a d i =
    let (h1, r, p, i1) = receive_all_lem P ms (queue_msg m h) n a.1 d i in
    (h1, ap (λ x. x >>= receive_all P ms) (process_msg-queued P m h n a.0 d) ∙ r, p, i1)

length-reverse_aux : (ms ns : List ObjMsg) → length (reverse_aux ms ns) ≡ length ms + length ns
length-reverse_aux [] ns = omega arith
length-reverse_aux (m ∷ ms) ns = let e = length-reverse_aux ms (m ∷ ns) in omega arith

-- Messages for objects come in while a request waits and the list of messages is empty, every
-- object of the tree is in memory, and the functions of the application start no request and free
-- no such object: as they come in nothing changes but the list of messages and the timer, and when
-- no request waits any more `ubus_process_pending_msg` processes each of them once without a
-- fault, the last one first, and empties the list.
pub pending_reversed :
    (P : Program) (ms : List ObjMsg) (h : Host) (n : ℕ)
    → IsQuiet P
    → InMemory h
    → AllForObjects ms
    → h.stack_depth ≡ suc n
    → h.pending ≡ []
    → (h1 h2 : Host) × (receive_all P ms h ≡ some h1)
      × (h1 ≡ record h { pending = reverse ms; pending_timer = h1.pending_timer })
      × (process_pending_msg (suc (length ms)) P (record h1 { stack_depth = 0 }) ≡ some h2)
      × Processes P (reverse ms) (record h1 { stack_depth = 0 }) h2
unfolding object
pending_reversed P ms h n quiet i a d e =
    let (h1, r, p, i1) = receive_all_lem P ms h n a d i in
    let size = length-reverse_aux ms [] in
    let q : h1 ≡ record h { pending = reverse ms; pending_timer = h1.pending_timer } =
      p ∙ ap (λ x. record h { pending = reverse_aux ms x; pending_timer = h1.pending_timer }) e in
    let (h2, r2, all) =
      process_pending_msg-Processes P quiet (reverse ms) (suc (length ms))
        (record h1 { stack_depth = 0 }) (ap Host.pending q) i1 refl (omega arith) in
    (h1, h2, r, q, r2, all)
