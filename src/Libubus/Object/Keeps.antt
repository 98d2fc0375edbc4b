-- ===== src/Libubus/Object/Keeps.antt =====
-- What the handling of a message leaves as it is, and that it comes to an end without a fault
-- (ubus/libubus-obj.c).
use libubus_jni.Prelude.{
  ℕ, ◌≡◌, refl, sym, ap, ◌∙◌, arith, Bool, true, false, ◌||◌, not, Option, none, some,
  if◌then◌else◌, ◌>>=◌, ◌==◌, inl, inr, Bool-cases, Option-cases,
}
use mathlib.Core.Option
use libubus_jni.Libubox.Text.{CString}
use libubus_jni.Libubox.Tree.{find, update, id_ord}
use libubus_jni.Libubox.Tree.Find.{find-update_self, find-update_ne}
use libubus_jni.Ubusd.Message.{Blob, MsgType}
use libubus_jni.Libubus.Object.{
  Handler, of_application, subscriber_cb, event_cb, Method, Object, ObjMsg, RequestData, Host,
  Program, object, find_method, call_handler, run_method, no_request, is_set, request_of,
  process_invoke, process_unsubscribe, process_notify, process_obj_msg, restore_msgbuf,
  complete_deferred_request,
}

-- Every object of the tree is in memory.
abbrev pub InMemory : Host → Type 0
InMemory h = (id a : ℕ) → find id h.objects ≡ some a → (o : Object) × (object a h ≡ some o)

-- The list of messages and the depth are as before, and the objects still in memory.
pub record Keeps (h h1 : Host) : Type 0 where
  pub pending : h1.pending ≡ h.pending
  pub depth : h1.stack_depth ≡ h.stack_depth
  pub memory : InMemory h → InMemory h1

Keeps-trans : (h h1 h2 : Host) → Keeps h h1 → Keeps h1 h2 → Keeps h h2
Keeps-trans h h1 h2 k l = record {
  pending = l.pending ∙ k.pending;
  depth = l.depth ∙ k.depth;
  memory = λ i. l.memory (k.memory i);
}

pub Keeps-refl : (h : Host) → Keeps h h
Keeps-refl h = record { pending = refl; depth = refl; memory = λ i. i }

-- A program whose functions wait for no request and free no object of the tree.
pub record IsQuiet (P : Program) : Type 0 where
  pub run :
      (f : Handler) (a : ℕ) (r : RequestData) (n : CString) (b : Option Blob) (h : Host)
      → Keeps h (P.run f a r n b h).2
  pub subscribed : (a : ℕ) (h : Host) → Keeps h (P.subscribed a h)
  pub removed : (a t : ℕ) (h : Host) → Keeps h (P.removed a t h)
  pub answer : (m : ObjMsg) (h : Host) → Keeps h (P.answer m h)

complete_deferred_request-Keeps :
    (r : RequestData) (ret : ℕ) (h : Host) → Keeps h (complete_deferred_request r ret h)
unfolding complete_deferred_request object
complete_deferred_request-Keeps r ret h = record { pending = refl; depth = refl; memory = λ i. i }

if-Keeps : (b : Bool) (h h1 h2 : Host) → Keeps h h1 → Keeps h1 h2 → Keeps h (if b then h1 else h2)
if-Keeps true h h1 h2 k l = k
if-Keeps false h h1 h2 k l = Keeps-trans h h1 h2 k l

when-Keeps : (b : Bool) (h h1 : Host) → Keeps h h1 → Keeps h (if b then h1 else h)
when-Keeps true h h1 k = k
when-Keeps false h h1 k = Keeps-refl h

update-Keeps :
    (a : ℕ) (f : Object → Object) (h : Host) → Keeps h (record h { memory = update a f h.memory })
unfolding object
update-Keeps a f h = record {
  pending = refl;
  depth = refl;
  memory = λ i id b e.
      let (o, g) = i id b e in
      elim (Bool-cases (b == a)) [
        | inl s ↦ (
          f o,
          (let s1 : b ≡ a = ground arith in
              ap (λ x. find x (update a f h.memory)) s1
              ∙ find-update_self a f h.memory
              ∙ ap (Option.map f) (ap (λ x. find x h.memory) (sym s1) ∙ g)),
        )
        | inr s ↦ (o, find-update_ne a b f h.memory (ground arith) ∙ g)
      ];
}

-- A result that is there, and what holds of it.
abbrev pub Gives : (Host → Type 0) → Option Host → Type 0
Gives Q none = ⊥
Gives Q (some h) = Q h

pub Gives-some : (Q : Host → Type 0) (r : Option Host) → Gives Q r → (h : Host) × (r ≡ some h) × Q h
Gives-some Q none g = absurd g
Gives-some Q (some h) g = (h, refl, g)

typed-Gives :
    (Q : Host → Type 0) (t : MsgType) (i u n : Option Host) (h : Host)
    → Q h
    → Gives Q i
    → Gives Q u
    → Gives Q n
    → Gives Q (elim t as (λ _. Option Host) [
      | MsgType.invoke ↦ i
      | MsgType.unsubscribe ↦ u
      | MsgType.notify ↦ n
      | _ ↦ some h
    ])
typed-Gives Q MsgType.invoke i u n h q qi qu qn = qi
typed-Gives Q MsgType.unsubscribe i u n h q qi qu qn = qu
typed-Gives Q MsgType.notify i u n h q qi qu qn = qn
typed-Gives Q _ i u n h q qi qu qn = q

restore_msgbuf-Keeps : (prev : Option ℕ) (h : Host) → Keeps h (restore_msgbuf prev h)
unfolding restore_msgbuf object
restore_msgbuf-Keeps none h = Keeps-refl h
restore_msgbuf-Keeps (some p) h = elim (Option-cases h.msgbuf) [
  | inl e ↦ rw e (record { pending = refl; depth = refl; memory = λ i. i })
  | inr (b, e) ↦ rw e (record { pending = refl; depth = refl; memory = λ i. i })
]

module _ (P : Program) (quiet : IsQuiet P) where
  call_handler-Keeps :
      (f : Handler) (a : ℕ) (o : Object) (r : RequestData) (n : CString) (b : Option Blob)
      (h : Host)
      → Keeps h (call_handler P f a o r n b h).2
  unfolding call_handler
  call_handler-Keeps (of_application i) a o r n b h = quiet.run (of_application i) a r n b h
  call_handler-Keeps subscriber_cb a o r n b h = elim (Bool-cases o.cb) [
    | inl e ↦ rw e (quiet.run subscriber_cb a r n b h)
    | inr e ↦ rw e (Keeps-refl h)
  ]
  call_handler-Keeps event_cb a o r n b h = quiet.run event_cb a r n b h

  run_method-Keeps :
      (m : ObjMsg) (a : ℕ) (o : Object) (n : CString) (f : Method) (h : Host)
      → Keeps h (run_method P m a o n f h)
  unfolding run_method complete_deferred_request
  run_method-Keeps m a o n f h =
      let (ret, req, h1) = call_handler P f.handler a o (request_of o m) n m.payload h in
      if-Keeps (req.deferred || is_set m.no_reply) h h1 (complete_deferred_request req ret h1)
        (call_handler-Keeps f.handler a o (request_of o m) n m.payload h)
        (complete_deferred_request-Keeps req ret h1)

  process_invoke-Keeps :
      (m : ObjMsg) (x : Option ℕ) (h : Host)
      → ((a : ℕ) → x ≡ some a → (o : Object) × (object a h ≡ some o))
      → Gives (Keeps h) (process_invoke P m x h)
  unfolding process_invoke
  process_invoke-Keeps m none h i = complete_deferred_request-Keeps no_request 4 h
  process_invoke-Keeps m (some a) h i =
      let (o, e) = i a refl in
      rw e (elim (Option-cases m.method) [
        | inl n ↦ rw n (complete_deferred_request-Keeps no_request 2 h)
        | inr (name, n) ↦ rw n (elim (Option-cases (find_method name o.methods)) [
          | inl f ↦ rw f (complete_deferred_request-Keeps (request_of o m) 3 h)
          | inr (f, g) ↦ rw g (run_method-Keeps m a o name f h)
        ])
      ])

  process_unsubscribe-Keeps :
      (m : ObjMsg) (x : Option ℕ) (h : Host)
      → ((a : ℕ) → x ≡ some a → (o : Object) × (object a h ≡ some o))
      → Gives (Keeps h) (process_unsubscribe P m x h)
  unfolding process_unsubscribe
  process_unsubscribe-Keeps m none h i = Keeps-refl h
  process_unsubscribe-Keeps m (some a) h i =
      let (o, e) = i a refl in
      elim (Option-cases m.target) [
        | inl n ↦ rw n (Keeps-refl h)
        | inr (t, n) ↦
            rw (n, e) (when-Keeps o.is_watch h _ (when-Keeps o.remove_cb h _ (quiet.removed a t h)))
      ]

  process_notify-Keeps :
      (m : ObjMsg) (x : Option ℕ) (h : Host)
      → ((a : ℕ) → x ≡ some a → (o : Object) × (object a h ≡ some o))
      → Gives (Keeps h) (process_notify P m x h)
  unfolding process_notify
  process_notify-Keeps m none h i = Keeps-refl h
  process_notify-Keeps m (some a) h i =
      let (o, e) = i a refl in
      elim (Option-cases m.active) [
        | inl n ↦ rw n (Keeps-refl h)
        | inr (v, n) ↦
            let w = update-Keeps a (λ x. record x { has_subscribers = not (v == 0) }) h in
            rw (n, e)
              (elim (Bool-cases o.subscribe_cb) [
                | inl c ↦ rw c (Keeps-trans h _ _ w (quiet.subscribed a _))
                | inr c ↦ rw c w
              ])
      ]

  restored-Keeps :
      (prev : Option ℕ) (h : Host) (r : Option Host)
      → Gives (Keeps h) r
      → Gives (Keeps h) (r >>= λ h1. some (restore_msgbuf prev h1))
  restored-Keeps prev h none k = absurd k
  restored-Keeps prev h (some h1) k = Keeps-trans h h1 _ k (restore_msgbuf-Keeps prev h1)

  -- A message that is not in the buffer.
  pub process_obj_msg-Keeps :
      (m : ObjMsg) (h : Host) → InMemory h → Gives (Keeps h) (process_obj_msg false P m h)
  unfolding process_obj_msg
  process_obj_msg-Keeps m h i = elim (Option-cases m.objid) [
    | inl n ↦ rw n (Keeps-refl h)
    | inr (id, n) ↦ rw n (
        typed-Gives (Keeps h) m.msg_type _ _ _ h (Keeps-refl h)
          (restored-Keeps none h _ (process_invoke-Keeps _ (find id h.objects) h (i id)))
          (restored-Keeps none h _ (process_unsubscribe-Keeps _ (find id h.objects) h (i id)))
          (restored-Keeps none h _ (process_notify-Keeps _ (find id h.objects) h (i id))))
  ]
