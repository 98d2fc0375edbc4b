-- ===== src/Libubus/Io/Sending/Descriptor.antt =====
-- How often a descriptor is passed with a message (ubus/libubus-io.c).
use mathlib.Core.List.{append_assoc, append-nil}
use libubus_jni.Prelude.{
  ℕ, suc, ◌≤◌, ◌<◌, ◌≡◌, refl, sym, ap, ◌∙◌, arith, Bool, true, false, List, [], ◌∷◌, ◌++◌, Option,
  none, some, if◌then◌else◌, length, ltb, replicate, ◌≢◌,
}
use libubus_jni.Libubus.Io.Sending.{
  SendOutcome, takes, again, broken, Wire, Written, whole, concat, advance, fd_list, taken_of,
  writev_retry,
}
use libubus_jni.Libubus.Io.Sending.Whole.{taken_of-pos}
use libubus_jni.Libubus.Io.Sending.Ending.{AllTake, IsWhole}

-- The descriptor goes over the socket `times` times, `most` at most, and once at least where the
-- message is written whole.
pub record Passes (fd least most : ℕ) (w : Wire) (r : Written × Wire) : Type 0 where
  pub times : ℕ
  pub fds : r.1.fds ≡ w.fds ++ replicate times fd
  pub at_most : times ≤ most
  pub at_least : IsWhole r.0 → least ≤ times

-- One call of `sendmsg` and what comes behind it.
none-step :
    (n : ℕ) (fds : List ℕ) (w1 : Wire) (vs : List (List ℕ)) (later : Written × Wire)
    → w1.fds ≡ fds
    → later.1.fds ≡ w1.fds
    → (elim vs as (λ _. Written × Wire) [ [] ↦ (whole n, w1) | ◌∷◌ _ _ ↦ later ]).1.fds ≡ fds
none-step n fds w1 [] later e h = e
none-step n fds w1 (v ∷ vs) later e h = h ∙ e

if-none : (b : Bool) (fd : Option ℕ) → fd ≡ none → (if b then none else fd) ≡ none
if-none true fd e = refl
if-none false fd e = e

-- Without one, none is passed.
writev_retry-none :
    (os : List SendOutcome) (iov : List (List ℕ)) (fd : Option ℕ) (len : ℕ) (w : Wire)
    → fd ≡ none
    → (writev_retry os iov fd len w).1.fds ≡ w.fds
unfolding writev_retry
writev_retry-none [] iov fd len w e = refl
writev_retry-none (again ∷ os) iov fd len w e = writev_retry-none os iov fd len w e
writev_retry-none (broken ∷ os) iov fd len w e = refl
writev_retry-none (takes n ∷ os) iov fd len w e =
    none-step _ w.fds _ (advance (taken_of n (concat iov)) iov) _
      (ap (λ f. w.fds ++ fd_list f) e ∙ append-nil w.fds)
      (writev_retry-none os _ _ _ _ (if-none (ltb 0 len) fd e))

some-step :
    (fd n most : ℕ) (w w1 : Wire) (vs : List (List ℕ)) (later : Written × Wire)
    → w1.fds ≡ w.fds ++ (fd ∷ [])
    → (vs ≢ [] → Passes fd 0 most w1 later)
    → Passes fd 1
        (suc most)
        w
        (elim vs as (λ _. Written × Wire) [ [] ↦ (whole n, w1) | ◌∷◌ _ _ ↦ later ])
some-step fd n most w w1 [] later e h = record {
  times = 1;
  fds = e;
  at_most = omega arith;
  at_least = λ _. omega arith;
}
some-step fd n most w w1 (v ∷ vs) later e h =
    let p = h (ground arith) in
    record {
      times = suc p.times;
      fds =
          p.fds
          ∙ ap (λ l. l ++ replicate p.times fd) e
          ∙ append_assoc w.fds (fd ∷ []) (replicate p.times fd);
      at_most = let le = p.at_most in omega arith;
      at_least = λ _. omega arith;
    }

-- Behind the first byte the next call passes it again, and no other does.
writev_retry-once :
    (os : List SendOutcome) (iov : List (List ℕ)) (fd len : ℕ) (w : Wire)
    → 0 < len
    → Passes fd 1 1 w (writev_retry os iov (some fd) len w)
unfolding writev_retry
writev_retry-once [] iov fd len w p = record {
  times = 0;
  fds = sym (append-nil w.fds);
  at_most = omega arith;
  at_least = λ h. absurd h;
}
writev_retry-once (again ∷ os) iov fd len w p = writev_retry-once os iov fd len w p
writev_retry-once (broken ∷ os) iov fd len w p = record {
  times = 0;
  fds = sym (append-nil w.fds);
  at_most = omega arith;
  at_least = λ h. absurd h;
}
writev_retry-once (takes n ∷ os) iov fd len w p =
    let e : ltb 0 len ≡ true = ground arith in
    some-step fd _ 0 w _ (advance (taken_of n (concat iov)) iov) _ refl (λ _. record {
      times = 0;
      fds =
          writev_retry-none os _ _ _ _ (ap (λ x. if x then none else some fd) e)
          ∙ sym (append-nil _);
      at_most = omega arith;
      at_least = λ _. omega arith;
    })

Passes-weaken : (fd : ℕ) (w : Wire) (r : Written × Wire) → Passes fd 1 1 w r → Passes fd 0 1 w r
Passes-weaken fd w r p = record {
  times = p.times;
  fds = p.fds;
  at_most = p.at_most;
  at_least = λ _. omega arith;
}

-- When every call of `sendmsg` takes a byte at least or fails with EAGAIN or EINTR, `writev_retry`
-- of at least one byte with a descriptor passes this descriptor and no other, at most twice, and
-- at least once if the bytes are written whole.
pub writev_retry-Passes :
    (os : List SendOutcome) (iov : List (List ℕ)) (fd : ℕ) (w : Wire)
    → AllTake os
    → 0 < length (concat iov)
    → Passes fd 1 2 w (writev_retry os iov (some fd) 0 w)
unfolding writev_retry
writev_retry-Passes [] iov fd w a p = record {
  times = 0;
  fds = sym (append-nil w.fds);
  at_most = omega arith;
  at_least = λ h. absurd h;
}
writev_retry-Passes (again ∷ os) iov fd w a p = writev_retry-Passes os iov fd w a p
writev_retry-Passes (broken ∷ os) iov fd w a p = absurd a
writev_retry-Passes (takes n ∷ os) iov fd w a p =
    let some_taken = taken_of-pos n (concat iov) a.0 p in
    some-step fd _ 1 w _ (advance (taken_of n (concat iov)) iov) _ refl
      (λ _. Passes-weaken fd _ _ (writev_retry-once os _ fd _ _ (omega arith)))
