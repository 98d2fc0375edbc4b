-- ===== src/Wrapper/Incoming/Answered.antt =====
-- A call from another client, from its arrival to the answer that Java gives
-- (java_ubus_example/jni/ubus_wrapper.c and ubus/libubus-obj.c).
use mathlib.Core.Option.{some-injective}
use libubus_jni.Prelude.{
  ℕ, ◌+◌, ◌-◌, ◌≤◌, ◌<◌, ◌≡◌, refl, sym, ap, ◌∙◌, arith, Bool, true, false, List, [], ◌∷◌, ◌++◌,
  Option, none, some, ltb, leb, length, Bool-cases, Option-cases, inl, inr,
}
use libubus_jni.Libubox.Text.{CString, str_eq}
use libubus_jni.Libubox.Tree.{find, id_ord}
use libubus_jni.Ubusd.Message.{Blob, MsgType, Message, built, put_objid, put_data}
use libubus_jni.Libubus.Object.{
  of_application, Method, Object, ObjMsg, RequestData, request_of, find_method, run_method, Host,
  restore_msgbuf, process_obj_msg, call_handler, status_of, complete_deferred_request, send_reply,
}
use libubus_jni.Libubus.Object.Dispatch.{
  Calls, taken_buf, given_back, object-taken_buf, process_obj_msg-method,
}
use libubus_jni.Wrapper.Calls.{without}
use libubus_jni.Wrapper.Incoming.{
  Deferred, Desk, max_objects, named, defer_cb, deferring, accept_request, get_request_method,
  get_request_json, reply,
}

-- The methods that `ubus_parse_object_type` makes: each has a name, and `dummy_defer_cb` runs it.
pub data AllDeferred : List Method → Type 0 where
  no_more : AllDeferred []
  deferred :
      {n : CString} {k : ℕ} {fs : List Method}
      → AllDeferred fs
      → AllDeferred (record { name = some n; handler = of_application k } ∷ fs)

-- libubus and the wrapper find the same method.
find_method-named :
    (name : CString) (fs : List Method) {f : Method}
    → AllDeferred fs
    → find_method name fs ≡ some f
    → (n : CString) × (k : ℕ) × (f.handler ≡ of_application k)
      × (named name fs ≡ some (some n))
      × (str_eq n name ≡ true)
unfolding find_method named
find_method-named name [] all e = cc
find_method-named name (g ∷ fs) {f} (deferred {n = n} {k = k} all) e =
    elim (Bool-cases (str_eq n name)) [
      | inl y ↦
          let at : some g ≡ some f = sym (rw y refl) ∙ e in
          let same : g ≡ f = some-injective _ _ at in
          (n, k, sym (ap Method.handler same), rw y refl, y)
      | inr z ↦
          let later : find_method name fs ≡ some f = sym (rw z refl) ∙ e in
          let (m, j, h, r, q) = find_method-named name fs all later in (m, j, h, rw z r, q)
    ]

-- The next contexts take the oldest calls.
abbrev pub accept_all : List ℕ → Desk → Desk
accept_all [] D = D
accept_all (u ∷ us) D = accept_all us (accept_request u D).1

accept_request-cons :
    (u : ℕ) (d : Deferred) (rest : List Deferred) (D : Desk)
    → D.waiting ≡ d ∷ rest
    → accept_request u D ≡ (
      true,
      record D { waiting = rest; accepted = D.accepted + 1; held = (u, d) ∷ without u D.held },
    )
unfolding accept_request
accept_request-cons u d rest D e = rw (e, accept_request) refl

find_first : (u : ℕ) (d : Deferred) (t : List (ℕ × Deferred)) → find u ((u, d) ∷ t) ≡ some d
unfolding find
find_first u d t = ground arith

-- A context behind as many others as calls wait in front of this one gets this one.
accept_all-last :
    (u : ℕ) (us : List ℕ) (ds : List Deferred) (d : Deferred) (D : Desk)
    → length us ≡ length ds
    → D.waiting ≡ ds ++ (d ∷ [])
    → (find u (accept_all (us ++ (u ∷ [])) D).held ≡ some d)
      × ((accept_all (us ++ (u ∷ [])) D).host ≡ D.host)
accept_all-last u [] [] d D same e =
    let taken = accept_request-cons u d [] D e in
    (ap (λ r. find u r.1.held) taken ∙ find_first u d (without u D.held), ap (λ r. r.1.host) taken)
accept_all-last u [] (x ∷ ds) d D same e = absurd (omega arith)
accept_all-last u (v ∷ us) [] d D same e = absurd (omega arith)
accept_all-last u (v ∷ us) (x ∷ ds) d D same e =
    let taken = accept_request-cons v x (ds ++ (d ∷ [])) D e in
    let (held, host) =
      accept_all-last u us ds d (accept_request v D).1 (omega arith)
        (ap (λ r. r.1.waiting) taken) in
    (held, host ∙ ap (λ r. r.1.host) taken)

-- The call as it waits.
abbrev pub deferred_call : RequestData → CString → CString → Deferred
deferred_call req n json = record { req = req; method = n; json = json }

-- What a call has to be like for `dummy_defer_cb` to take it.
pub record Taken (format : Option Blob → Option CString) (m : ObjMsg) (a : ℕ) (D : Desk)
    (o : Object) (f : Method) (name json : CString) : Type 0 where
  pub called : Calls m a o name D.host
  pub all : AllDeferred o.methods
  pub finds : find_method name o.methods ≡ some f
  pub text : format m.payload ≡ some json
  pub few : D.accepted < 100
  pub inside : a ≤ max_objects

-- With nothing else done, the buffer of the connection is as before.
given_back-taken_buf :
    (in_msgbuf : Bool) (h : Host) → given_back in_msgbuf h (taken_buf in_msgbuf h) ≡ h
unfolding restore_msgbuf
given_back-taken_buf true h = elim (Option-cases h.msgbuf) [
  | inl e ↦
      ap (λ x. restore_msgbuf x (record h { msgbuf = none })) e
      ∙ sym (ap (λ x. record h { msgbuf = x }) e)
  | inr (b, e) ↦
      ap (λ x. restore_msgbuf x (record h { msgbuf = none })) e
      ∙ sym (ap (λ x. record h { msgbuf = x }) e)
]
given_back-taken_buf false h = refl

-- The state while the message is handled.
abbrev pub handling : Bool → Desk → Desk
handling in_msgbuf D = record D { host = taken_buf in_msgbuf D.host }

module _ (format : Option Blob → Option CString) (in_msgbuf : Bool) (m : ObjMsg) (a : ℕ) (D : Desk)
    (o : Object) (f : Method) (name json : CString) (t : Taken format m a D o f name json) where
  defer_cb_lem :
      (req : RequestData) (n : CString)
      → named name o.methods ≡ some (some n)
      → defer_cb format a req name m.payload (handling in_msgbuf D)
        ≡ some (
          0,
          record req { deferred = true },
          handling in_msgbuf (record D { waiting = D.waiting ++ (deferred_call req n json ∷ []) }),
        )
  unfolding defer_cb
  defer_cb_lem req n e =
      let low : ltb D.accepted 100 ≡ true = ground (arith, t.few) in
      let valid : leb a max_objects ≡ true = ground (arith, t.inside) in
      let there = object-taken_buf in_msgbuf a D.host ∙ t.called.in_memory in
      rw (there, defer_cb) (rw e (rw (low, valid) (rw t.text refl)))

  deferring_lem :
      (req : RequestData) (n : CString) (k : ℕ)
      → named name o.methods ≡ some (some n)
      → (deferring format D).run
          (of_application k)
          a
          req
          name
          m.payload
          (taken_buf in_msgbuf D.host)
        ≡ (0, record req { deferred = true }, taken_buf in_msgbuf D.host)
  unfolding deferring
  deferring_lem req n k e = rw (defer_cb_lem req n e, deferring) refl

  -- libubus answers nothing for now.
  process_obj_msg-defers :
      (n : CString) (k : ℕ)
      → f.handler ≡ of_application k
      → named name o.methods ≡ some (some n)
      → process_obj_msg in_msgbuf (deferring format D) m D.host ≡ some D.host
  unfolding run_method call_handler
  process_obj_msg-defers n k runs e =
      process_obj_msg-method (deferring format D) in_msgbuf m a o name D.host f t.called t.finds
      ∙ rw (runs, run_method)
          (rw (deferring_lem (request_of o m) n k e)
            (ap some (given_back-taken_buf in_msgbuf D.host)))

  -- What the wrapper sends for an answer.
  abbrev answer_of : Blob → Message
  answer_of b = record {
    msg_type = MsgType.data_reply;
    seq = m.seq;
    peer = m.peer;
    fd = none;
    body = built (put_objid o.id ∷ put_data b ∷ []);
  }

  -- Another client calls a method of an object in the memory of libubus, in the buffer of the
  -- connection or not; all methods of the object have names and are run by `dummy_defer_cb`;
  -- blobmsg_format_json gives a text, fewer than 100 accepted calls are unanswered, and the object
  -- is in `_ubus_objects`. Then libubus sends nothing for now and is as before, with the buffer
  -- given back, and the call joins the end of the waiting ones; a context that accepts behind as
  -- many others as waited before gets this call, its method and its text, and `ubus_wrap_reply` by
  -- this context sends first the data and then the status 0, both with the peer, the sequence
  -- number and the object of the call, and nothing else.
  pub deferred_call-answered :
      (blob_of : CString → Blob) (sent : Bool) (us : List ℕ) (u : ℕ) (answer : CString)
      → length us ≡ length D.waiting
      → (n : CString) × (D1 D2 : Desk) × (str_eq n name ≡ true)
        × (process_obj_msg in_msgbuf (deferring format D) m D.host ≡ some D.host)
        × (defer_cb format a (request_of o m) name m.payload (handling in_msgbuf D)
            ≡ some (0, record (request_of o m) { deferred = true }, handling in_msgbuf D1))
        × (get_request_method u (accept_all (us ++ (u ∷ [])) D1) ≡ some n)
        × (get_request_json u (accept_all (us ++ (u ∷ [])) D1) ≡ some (json, length json))
        × (reply blob_of sent u (some answer) (accept_all (us ++ (u ∷ [])) D1) ≡ some D2)
        × (D2.host ≡ record D.host {
          sent = status_of (request_of o m) 0 ∷ answer_of (blob_of answer) ∷ D.host.sent;
        })
  unfolding get_request_method get_request_json reply complete_deferred_request send_reply
  deferred_call-answered blob_of sent us u answer same =
      let (n, k, runs, e, equal) = find_method-named name o.methods t.all t.finds in
      let d = deferred_call (request_of o m) n json in
      let D1 = record D { waiting = D.waiting ++ (d ∷ []) } in
      let (held, host) = accept_all-last u us D.waiting d D1 same refl in
      let D0 = accept_all (us ++ (u ∷ [])) D1 in
      let D2 = record D0 {
        accepted = D0.accepted - 1;
        held = without u D0.held;
        host = complete_deferred_request d.req 0 (send_reply sent d.req (blob_of answer) D0.host).1;
      } in
      (
        n,
        D1,
        D2,
        equal,
        process_obj_msg-defers n k runs e,
        defer_cb_lem (request_of o m) n e,
        rw held refl,
        rw held refl,
        rw held refl,
        rw host refl,
      )
