-- ===== src/Wrapper/Calls/Started.antt =====
-- `ubus_wrap_invoke` keeps flags, list and requests in agreement
-- (java_ubus_example/jni/ubus_wrapper.c).
use mathlib.Core.Option
use mathlib.Core.Path.{subst}
use libubus_jni.Prelude.{
  ℕ, ◌≡◌, ◌≢◌, refl, sym, ap, ◌∙◌, arith, Bool, true, false, List, [], ◌∷◌, Option, none, some,
  ◌==◌, Bool-cases, inl, inr, Ensures, ensured, >>=-Ensures, Ensures-any, Ensures-mono,
}
use libubus_jni.Libubox.Text.{CString}
use libubus_jni.Libubox.Tree.{find, update, id_ord}
use libubus_jni.Libubox.Tree.Find.{find-update_self, find-update_ne}
use libubus_jni.Ubusd.Message.{Blob}
use libubus_jni.Libubus.Request.{
  Incoming, Request, Complete, Call, complete_call, data_call, Context, write, start_request,
  complete_request_async,
}
use libubus_jni.Libubus.Request.Answer.{process_req_msg}
use libubus_jni.Libubus.Request.Due.{apart, armed, is_there, there-update}
use libubus_jni.Wrapper.Calls.{
  Wrap, Wrapper, sync_req_cb, recv_cb_json_out, on_call, on_calls, quiet_log, receive, await,
}
use libubus_jni.Wrapper.Calls.Balanced.{Bits, Balanced, Bits-update, count, is_held}
use libubus_jni.Wrapper.Calls.Operations.{started-Bits}

-- Handling calls neither makes nor frees a block.
pub held-update :
    (u r : ℕ) (f : Wrap → Wrap) (t : List (ℕ × Wrap))
    → is_held (find u (update r f t)) ≡ is_held (find u t)
held-update u r f t = elim (Bool-cases (u == r)) [
  | inl e ↦
      let eq : u ≡ r = ground arith in
      rw eq (ap is_held (find-update_self r f t) ∙ held-map (find r t))
  | inr n ↦ ap is_held (find-update_ne r u f t (ground arith))
]
  where
    held-map : (o : Option Wrap) → is_held (Option.map f o) ≡ is_held o
    held-map none = refl
    held-map (some q) = refl

module _ (format : Option Blob → CString) (u : ℕ) where
  on_call-held :
      (x : Call) (W : Wrapper)
      → is_held (find u (on_call format x W).wraps) ≡ is_held (find u W.wraps)
  unfolding sync_req_cb recv_cb_json_out
  on_call-held (complete_call r s) W = held-update u r _ W.wraps
  on_call-held (data_call r m) W = held-update u r _ W.wraps
  on_call-held _ W = refl

  on_calls-held :
      (xs : List Call) (W : Wrapper)
      → is_held (find u (on_calls format xs W).wraps) ≡ is_held (find u W.wraps)
  unfolding on_calls
  on_calls-held [] W = refl
  on_calls-held (x ∷ xs) W = on_call-held x (on_calls format xs W) ∙ on_calls-held xs W

  pub receive-held :
      (fuel : ℕ) (ms : List (Incoming × Option ℕ)) (W : Wrapper)
      → Ensures
          (λ W1. is_held (find u W1.wraps) ≡ is_held (find u W.wraps))
          (receive format fuel ms W)
  unfolding receive
  receive-held fuel [] W = ensured refl
  receive-held fuel ((m, fd) ∷ ms) W =
      >>=-Ensures (Ensures-any (process_req_msg apart fuel m fd (quiet_log W.ctx))) λ c _.
        Ensures-mono (receive-held fuel ms (on_calls format c.log (record W { ctx = c })))
          (λ W1 e. e ∙ on_calls-held c.log (record W { ctx = c }))

-- A write to a request whose function is not set, that does not set it.
armed-clear :
    (u r : ℕ) (f : Request → Request) (t : List (ℕ × Request))
    → ((q : Request) → (f q).complete_cb ≡ Complete.absent)
    → ((r == u) ≡ true → armed (find u t) ≡ 0)
    → armed (find u (update r f t)) ≡ armed (find u t)
armed-clear u r f t absent zero_now = elim (Bool-cases (r == u)) [
  | inl e ↦
      let eq : r ≡ u = ground arith in
      rw eq (ap armed (find-update_self u f t) ∙ cleared_map (find u t) ∙ sym (zero_now e))
  | inr n ↦ ap armed (find-update_ne r u f t (ground arith))
]
  where
    cleared_map : (o : Option Request) → armed (Option.map f o) ≡ 0
    cleared_map none = refl
    cleared_map (some q) =
        ap (λ (k : Complete). elim k as (λ _. ℕ) [ Complete.application ↦ 1 | _ ↦ 0 ]) (absent q)

-- Setting the function.
armed-arm :
    (u : ℕ) (t : List (ℕ × Request))
    → is_there (find u t) ≡ true
    → armed
        (find u (update u (λ q. record q { complete_cb = Complete.application; data_cb = true }) t))
      ≡ 1
armed-arm u t y = ap armed (find-update_self u _ t) ∙ arm_map (find u t) y
  where
    arm_map :
        (o : Option Request)
        → is_there o ≡ true
        → armed (
            Option.map {A = Request}
              (λ q. record q { complete_cb = Complete.application; data_cb = true })
              o)
          ≡ 1
    arm_map none h = cc
    arm_map (some q) h = refl

pub memory-Bits :
    {o : Option Wrap} {a a1 n k s : ℕ} {h h1 : Bool}
    → a1 ≡ a
    → h1 ≡ h
    → Bits o a n k s h
    → Bits o a1 n k s h1
memory-Bits e g b = record {
  req = omega (arith, b.req, e);
  ret = b.ret;
  sum = b.sum;
  one = b.one;
  held = b.held ∙ sym g;
}

complete_request_async-memory :
    (r : ℕ) (c : Context) → (complete_request_async r c).memory ≡ c.memory
unfolding complete_request_async
complete_request_async-memory r c = ground arith

module _ (u f v : ℕ) (idle : (v == u) ≡ true → f ≡ 0) where
  not_armed : (W : Wrapper) → Balanced u 0 f W → (v == u) ≡ true → armed (find u W.ctx.memory) ≡ 0
  not_armed W b e = omega (arith, b.req, b.sum, idle e)

  pub start_request-Balanced :
      (fits sent : Bool) (id : ℕ) (W : Wrapper)
      → Balanced u 0 f W
      → Balanced u 0 f (record W { ctx = (start_request fits sent v id W.ctx).1 })
  unfolding start_request write
  start_request-Balanced true sent id W b =
      memory-Bits (armed-clear u v _ W.ctx.memory (λ q. refl) (not_armed W b))
        (there-update u v _ W.ctx.memory) b
  start_request-Balanced false sent id W b =
      memory-Bits (armed-clear u v _ W.ctx.memory (λ q. refl) (not_armed W b))
        (there-update u v _ W.ctx.memory) b

  pub await-Balanced :
      (W : Wrapper)
      → ((v == u) ≡ true → is_held (find u W.wraps) ≡ true)
      → Balanced u 0 f W
      → (g : ℕ) × Balanced u 0 g (await v W)
  unfolding await write
  await-Balanced W held b = elim (Bool-cases (v == u)) [
    | inr ne ↦
        let away : u ≢ v = ground arith in
        (
          f,
          rw (complete_request_async-memory v) (
              Bits-update u v _ W.wraps _ _ 0 f _ (λ e. absurd (ground arith))
                (λ e.
                  memory-Bits (ap armed (find-update_ne v u _ W.ctx.memory away))
                    (there-update u v _ W.ctx.memory) b)),
        )
    | inl y ↦
        let same : v ≡ u = ground arith in
        (
          1,
          rw (complete_request_async-memory v) (
              Bits-update u v _ W.wraps _ _ 0 1 _
                (λ e.
                  memory-Bits (rw same (armed-arm u W.ctx.memory (sym b.held ∙ held y)))
                    (there-update u v _ W.ctx.memory)
                    (started-Bits (find u W.wraps) (count u W.returns) _ (held y) (
                      memory-Bits (sym (not_armed W b y)) refl
                        (subst (λ s. Balanced u 0 s W) (idle y) b))))
                (λ e. absurd (ground arith))),
        )
  ]
