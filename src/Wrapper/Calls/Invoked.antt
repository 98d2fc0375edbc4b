-- ===== src/Wrapper/Calls/Invoked.antt =====
-- `ubus_wrap_invoke` on each of its branches (java_ubus_example/jni/ubus_wrapper.c).
use libubus_jni.Prelude.{
  ℕ, ◌+◌, ◌%◌, ◌≡◌, sym, ap, ◌∙◌, arith, true, false, Option, some, ◌==◌, ◌||◌, Bool-cases,
  Option-cases, inl, inr, Ensures, fault, ensured, >>=-Ensures, if-Ensures, Ensures-both,
}
use libubus_jni.Libubox.Text.{CString}
use libubus_jni.Libubox.Tree.{find, update, id_ord}
use libubus_jni.Ubusd.Message.{Blob, u16_mod}
use libubus_jni.Libubus.Request.{start_request}
use libubus_jni.Wrapper.Calls.{Wrap, Wrapper, wrap_context, Attempt, invoke_found, invoke}
use libubus_jni.Wrapper.Calls.Balanced.{Balanced, req_bit, ret_bit, is_held}
use libubus_jni.Wrapper.Calls.Operations.{
  receive-Balanced, wrap_context-Balanced, index-Balanced, invoke_fail-Balanced,
}
use libubus_jni.Wrapper.Calls.Started.{
  held-update, receive-held, start_request-Balanced, await-Balanced,
}

module _ (format : Option Blob → CString) (u f v : ℕ) (idle : (v == u) ≡ true → f ≡ 0) where
  invoke_found-Balanced :
      (t : Attempt) (W : Wrapper)
      → ((v == u) ≡ true → is_held (find u W.wraps) ≡ true)
      → Balanced u 0 f W
      → (g : ℕ) × Balanced u 0 g (invoke_found v t W).1
  unfolding invoke_found
  invoke_found-Balanced t W held b = elim (Option-cases t.found) [
    | inl e ↦ rw e (invoke_fail-Balanced format u f v W idle held b)
    | inr (id, e) ↦
        let W1 = record W { ctx = (start_request t.fits t.sent v id W.ctx).1 } in
        let b1 = start_request-Balanced u f v idle t.fits t.sent id W b in
        rw e (elim (Bool-cases (start_request t.fits t.sent v id W.ctx).0) [
          | inl y ↦ rw y (await-Balanced u f v idle W1 held b1)
          | inr n ↦ rw n (invoke_fail-Balanced format u f v W1 idle held b1)
        ])
  ]

module _ (format : Option Blob → CString) (u : ℕ) where
  -- A block with no flag set counts as idle.
  idle_flags :
      (v f : ℕ) (W : Wrapper) (w : Wrap)
      → find v W.wraps ≡ some w
      → (w.req_pending || w.ret_pending) ≡ false
      → Balanced u 0 f W
      → (v == u) ≡ true
      → f ≡ 0
  idle_flags v f W w e n b y =
      let same : v ≡ u = ground arith in
      let at : find u W.wraps ≡ some w = ap (λ k. find k W.wraps) (sym same) ∙ e in
      let req = ap req_bit at in let ret = ap ret_bit at in ground (arith, b.sum, req, ret)

  -- The block that is used is there from the start to the end of the lookup.
  held_there :
      (v : ℕ) (W : Wrapper) (w : Wrap)
      → find v W.wraps ≡ some w
      → (v == u) ≡ true
      → is_held (find u W.wraps) ≡ true
  held_there v W w e y =
      let same : v ≡ u = ground arith in ap is_held (ap (λ k. find k W.wraps) (sym same) ∙ e)

  pub invoke-Balanced :
      (fuel v index f : ℕ) (t : Attempt) (W : Wrapper)
      → Balanced u 0 f W
      → Ensures (λ r. (g : ℕ) × Balanced u 0 g r.1) (invoke format fuel v index t W)
  unfolding invoke
  invoke-Balanced fuel v index f t W b =
      let W0 = wrap_context v W in
      let b0 = wrap_context-Balanced format u f v W b in
      let W1 = record W0 {
        wraps = update v (λ x. record x { index = index }) W0.wraps;
        connected = W0.connected || t.connects;
      } in
      let b1 = index-Balanced format u f v index (W0.connected || t.connects) W0 b0 in
      let kept = held-update u v (λ x. record x { index = index }) W0.wraps in
      elim (Option-cases (find v W0.wraps))
        as (λ _. Ensures (λ r. (g : ℕ) × Balanced u 0 g r.1) (invoke format fuel v index t W)) [
          | inl e ↦ rw e fault
          | inr (w, e) ↦ elim (Bool-cases (w.req_pending || w.ret_pending)) [
            | inl y ↦ rw (e, y) fault
            | inr n ↦
                let idle = idle_flags v f W0 w e n b0 in
                let held : (v == u) ≡ true → is_held (find u W1.wraps) ≡ true =
                  λ y. kept ∙ held_there v W0 w e y in
                rw (e, n)
                  (if-Ensures W1.connected
                    (>>=-Ensures
                      (Ensures-both (receive-Balanced format u f fuel t.meanwhile W1 b1)
                        (receive-held format u fuel t.meanwhile W1))
                      λ W2 (b2, same). ensured (
                        invoke_found-Balanced format u f v idle t
                          (record W2 {
                            ctx = record W2.ctx {
                              request_seq = (W2.ctx.request_seq + 1) % u16_mod;
                            };
                          })
                          (λ y. same ∙ held y) b2))
                    (ensured (invoke_fail-Balanced format u f v W1 idle held b1)))
          ]
        ]
