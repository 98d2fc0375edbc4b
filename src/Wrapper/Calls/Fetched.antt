-- ===== src/Wrapper/Calls/Fetched.antt =====
-- `ubus_wrap_fetch_return` keeps flags, list and requests in agreement
-- (java_ubus_example/jni/ubus_wrapper.c).
use mathlib.Core.Option
use libubus_jni.Prelude.{
  ℕ, zero, suc, ◌+◌, arith, Bool, false, List, [], ◌∷◌, Option, none, some, ◌==◌, Bool-cases, inl,
  inr, Ensures, ensured, >>=-Ensures, Ensures-any,
}
use libubus_jni.Libubox.Text.{CString}
use libubus_jni.Libubox.Tree.{find, update, id_ord}
use libubus_jni.Ubusd.Message.{Blob}
use libubus_jni.Libubus.Request.{Incoming}
use libubus_jni.Wrapper.Calls.{Wrap, Wrapper, receive, take_returns, fetch_return}
use libubus_jni.Wrapper.Calls.Balanced.{Bits, Balanced, Bits-update, Bits-count, count, req_bit}
use libubus_jni.Wrapper.Calls.Operations.{receive-Balanced}

-- A block that is taken from the list.
taken-Bits :
    (o : Option Wrap) (a n s : ℕ) (h : Bool)
    → Bits o a (1 + n) 0 s h
    → Bits (Option.map {A = Wrap} (λ w. record w { ret_pending = false }) o) a n 0 (req_bit o) h
taken-Bits none a n s h b = absurd (omega (arith, b.ret))
taken-Bits (some w) a n s h b = record {
  req = b.req;
  ret = ground (arith, b.ret, b.sum, b.one);
  sum = omega arith;
  one = ground (arith, b.sum, b.one);
  held = b.held;
}

module _ (u : ℕ) where
  -- With what is left of the list in place of it.
  take_returns-Balanced :
      (room f : ℕ) (us : List ℕ) (W : Wrapper)
      → Balanced u 0 f (record W { returns = us })
      → Ensures (λ r. (g : ℕ) × Balanced u 0 g r.1) (take_returns room us W)
  unfolding take_returns
  take_returns-Balanced zero f us W b = ensured (f, b)
  take_returns-Balanced (suc room) f [] W b = ensured (f, b)
  take_returns-Balanced (suc room) f (v ∷ us) W b =
      let W1 = record W { wraps = update v (λ x. record x { ret_pending = false }) W.wraps } in
      let next : (g : ℕ) × Balanced u 0 g (record W1 { returns = us }) =
        elim (Bool-cases (v == u)) [
          | inl y ↦ (
            req_bit (find u W.wraps),
            Bits-update u v _ W.wraps _ _ 0 _ _
                (λ e.
                  taken-Bits (find u W.wraps) _ (count u us) f _ (Bits-count (ground (arith, y)) b))
                (λ e. absurd (ground arith)),
          )
          | inr n ↦ (
            f,
            Bits-update u v _ W.wraps _ _ 0 f _ (λ e. absurd (ground arith))
                (λ e. Bits-count (ground (arith, n)) b),
          )
        ] in
      >>=-Ensures (Ensures-any (find v W.wraps))
        λ w _. >>=-Ensures (take_returns-Balanced room next.0 us W1 next.1) λ r h. ensured h

  pub fetch_return-Balanced :
      (format : Option Blob → CString) (fuel size f : ℕ) (ms : List (Incoming × Option ℕ))
      (W : Wrapper)
      → Balanced u 0 f W
      → Ensures (λ r. (g : ℕ) × Balanced u 0 g r.1) (fetch_return format fuel size ms W)
  unfolding fetch_return
  fetch_return-Balanced format fuel size f ms W b =
      >>=-Ensures (polled W.returns) λ W1 b1. take_returns-Balanced size f W1.returns W1 b1
    where
      polled :
          (us : List ℕ)
          → Ensures
              (Balanced u 0 f)
              (elim us as (λ _. Option Wrapper) [ [] ↦ receive format fuel ms W | _ ↦ some W ])
      polled [] = receive-Balanced format u f fuel ms W b
      polled (v ∷ us) = ensured b
