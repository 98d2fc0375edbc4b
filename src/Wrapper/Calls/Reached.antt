-- ===== src/Wrapper/Calls/Reached.antt =====
-- The wrappers that sequences of calls lead to (java_ubus_example/jni/ubus_wrapper.c).
use libubus_jni.Prelude.{
  ℕ, ◌+◌, ◌≤◌, ◌≡◌, refl, sym, arith, Bool, false, List, [], Option, some, Ensures-some,
}
use libubus_jni.Libubox.Text.{CString}
use libubus_jni.Libubox.Tree.{find, id_ord}
use libubus_jni.Ubusd.Message.{Blob}
use libubus_jni.Libubus.Request.{Incoming}
use libubus_jni.Libubus.Request.Due.{armed, is_there}
use libubus_jni.Wrapper.Calls.{Wrapper, Attempt, invoke, fetch_return, release}
use libubus_jni.Wrapper.Calls.Balanced.{Balanced, count, req_bit, ret_bit, is_held}
use libubus_jni.Wrapper.Calls.Invoked.{invoke-Balanced}
use libubus_jni.Wrapper.Calls.Fetched.{fetch_return-Balanced}
use libubus_jni.Wrapper.Calls.Released.{release-Balanced}

-- Before the first call.
abbrev pub first_wrapper : Wrapper
first_wrapper = record {
  wraps = [];
  returns = [];
  connected = false;
  ctx = record { memory = []; requests = []; request_seq = 0; log = [] };
}

module _ (format : Option Blob → CString) where
  -- One call of a function of the wrapper that ends.
  pub data Step (W : Wrapper) : Wrapper → Type 0 where
    invoked :
        (fuel u index : ℕ) (t : Attempt) {r : Bool} {W1 : Wrapper}
        → invoke format fuel u index t W ≡ some (r, W1)
        → Step W W1
    fetched :
        (fuel size : ℕ) (ms : List (Incoming × Option ℕ)) {is : List ℕ} {W1 : Wrapper}
        → fetch_return format fuel size ms W ≡ some (is, W1)
        → Step W W1
    released : (fuel u : ℕ) {W1 : Wrapper} → release format fuel u W ≡ some W1 → Step W W1

  pub data Reach : Wrapper → Type 0 where
    start : Reach first_wrapper
    step : {W W1 : Wrapper} → Reach W → Step W W1 → Reach W1

  Step-Balanced :
      (u f : ℕ) {W W1 : Wrapper} → Step W W1 → Balanced u 0 f W → (g : ℕ) × Balanced u 0 g W1
  Step-Balanced u f {W} (invoked fuel v index t e) b =
      Ensures-some (invoke-Balanced format u fuel v index f t W b) e
  Step-Balanced u f {W} (fetched fuel size ms e) b =
      Ensures-some (fetch_return-Balanced u format fuel size f ms W b) e
  Step-Balanced u f {W} (released fuel v e) b =
      Ensures-some (release-Balanced u f format fuel v W b) e

  Reach-Balanced : (u : ℕ) {W : Wrapper} → Reach W → (g : ℕ) × Balanced u 0 g W
  unfolding find
  Reach-Balanced u start =
      (0, record { req = refl; ret = refl; sum = refl; one = omega arith; held = refl })
  Reach-Balanced u (step r s) = let (f, b) = Reach-Balanced u r in Step-Balanced u f s b

  -- What the flags of a block say.
  pub record Agree (u : ℕ) (W : Wrapper) : Type 0 where
    pub to_come : armed (find u W.ctx.memory) ≡ req_bit (find u W.wraps)
    pub returned : count u W.returns ≡ ret_bit (find u W.wraps)
    pub once : req_bit (find u W.wraps) + ret_bit (find u W.wraps) ≤ 1
    pub held : is_there (find u W.ctx.memory) ≡ is_held (find u W.wraps)

  -- In every state that `ubus_wrap_invoke`, `ubus_wrap_fetch_return` and `ubus_wrap_release` lead
  -- to from the first one, whatever messages come in: a context has FLAG_REQ_PENDING set exactly
  -- if the `complete_cb` of its request is still set, so that libubus is still to call it; it is
  -- on `_ubus_return_reqs` once if it has FLAG_RET_PENDING set and not at all otherwise; it has at
  -- most one of these flags; and libubus has its request in memory exactly as long as there is a
  -- block.
  pub Reach-Agree : (u : ℕ) (W : Wrapper) → Reach W → Agree u W
  Reach-Agree u W r =
      let (f, b) = Reach-Balanced u r in
      record {
        to_come = omega (arith, b.req);
        returned = b.ret;
        once = omega (arith, b.sum, b.one);
        held = sym b.held;
      }
