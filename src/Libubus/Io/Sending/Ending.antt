-- ===== src/Libubus/Io/Sending/Ending.antt =====
-- That the writer comes to an end (ubus/libubus-io.c).
use libubus_jni.Prelude.{
  ℕ, suc, ◌+◌, ◌≤◌, ◌<◌, ◌≡◌, refl, sym, ap, ◌∙◌, arith, Bool, true, false, List, [], ◌∷◌, ◌++◌,
  Option, length, length-append, ◌≢◌,
}
use mathlib.Core.Path.{subst}
use mathlib.Core.List.{append-nil}
use libubus_jni.Libubus.Io.Sending.{
  SendOutcome, takes, again, broken, Wire, Written, whole, failed, waits, concat, advance, fd_list,
  taken_of, writev_retry, send_msg,
}
use libubus_jni.Libubus.Io.Sending.Whole.{Writes, writev_retry-Writes, taken_of-pos, advance-fewer}

-- Every call of `sendmsg` takes a byte at least, or is to be made again.
abbrev pub AllTake : List SendOutcome → Type 0
AllTake [] = Unit
AllTake (takes n ∷ os) = (0 < n) × AllTake os
AllTake (again ∷ os) = AllTake os
AllTake (broken ∷ os) = ⊥

abbrev pub count_takes : List SendOutcome → ℕ
count_takes [] = 0
count_takes (takes n ∷ os) = suc (count_takes os)
count_takes (again ∷ os) = count_takes os
count_takes (broken ∷ os) = count_takes os

abbrev pub IsWhole : Written → Type 0
IsWhole (whole n) = Unit
IsWhole failed = ⊥
IsWhole waits = ⊥

finish-IsWhole :
    (n : ℕ) (w : Wire) (later : Written × Wire) (vs : List (List ℕ))
    → (vs ≢ [] → IsWhole later.0)
    → IsWhole (elim vs as (λ _. Written × Wire) [ [] ↦ (whole n, w) | ◌∷◌ _ _ ↦ later ]).0
finish-IsWhole n w later [] h = tt
finish-IsWhole n w later (x ∷ xs) h = h (ground arith)

-- Each call that takes a byte at least leaves fewer, so as many calls as there are bytes end it.
writev_retry-ends :
    (os : List SendOutcome) (iov : List (List ℕ)) (fd : Option ℕ) (len : ℕ) (w : Wire)
    → AllTake os
    → 0 < count_takes os
    → length (concat iov) ≤ count_takes os
    → IsWhole (writev_retry os iov fd len w).0
unfolding writev_retry
writev_retry-ends [] iov fd len w a p c = absurd (omega arith)
writev_retry-ends (again ∷ os) iov fd len w a p c = writev_retry-ends os iov fd len w a p c
writev_retry-ends (broken ∷ os) iov fd len w a p c = absurd a
writev_retry-ends (takes n ∷ os) iov fd len w a p c =
    finish-IsWhole _ _ _ (advance (taken_of n (concat iov)) iov) (λ ne.
      let fewer = advance-fewer (taken_of n (concat iov)) iov ne in
      let some_taken = taken_of-pos n (concat iov) a.0 in
      writev_retry-ends os _ _ _ _ a.1 (omega arith) (omega arith))

-- What `ubus_send_msg` gives when the whole message is out.
abbrev pub OnWire : ℕ → List ℕ → Option ℕ → Written × Wire × Bool × List ℕ → Type 0
OnWire total stream fd r =
    (r.0 ≡ whole total) × (r.1.bytes ≡ stream) × (r.2 ≡ false) × (r.3 ≡ fd_list fd)

IsFinal-OnWire :
    (b : List ℕ) (w : Wire) (fd : Option ℕ) (r : Written × Wire)
    → IsWhole r.0
    → Writes b 0 w r
    → OnWire
        (length b)
        (w.bytes ++ b)
        fd
        (r.0, r.1, elim r.0 [ failed ↦ true | _ ↦ false ], elim r.0 [ waits ↦ [] | _ ↦ fd_list fd ])
IsFinal-OnWire b w fd (whole n, w1) h v = (
  ap whole (v.result.1 ∙ (omega arith)),
  sym (append-nil w1.bytes) ∙ ap (◌++◌ w1.bytes) (sym v.result.0) ∙ v.stream,
  refl,
  refl,
)
IsFinal-OnWire b w fd (failed, w1) h v = absurd h
IsFinal-OnWire b w fd (waits, w1) h v = absurd h

-- When every call of `sendmsg` takes a byte at least or fails with EAGAIN or EINTR, and as many
-- take bytes as the header and the attributes have, `ubus_send_msg` of a message with a header
-- that is not empty comes to its end: it returns their number, has appended header and attributes
-- to the stream, each byte once and in order, the socket is not marked as ended, and the
-- descriptor, if any, is closed.
pub send_msg-OnWire :
    (os : List SendOutcome) (hdr msg : List ℕ) (fd : Option ℕ) (w : Wire)
    → AllTake os
    → 0 < length hdr
    → length hdr + length msg ≤ count_takes os
    → OnWire (length (hdr ++ msg)) (w.bytes ++ (hdr ++ msg)) fd (send_msg os hdr msg fd w)
unfolding send_msg
send_msg-OnWire os hdr msg fd w a p c =
    let all : concat (hdr ∷ msg ∷ []) ≡ hdr ++ msg = ap (◌++◌ hdr) (append-nil msg) in
    let size = ap length all ∙ length-append hdr msg in
    subst (λ b. OnWire (length b) (w.bytes ++ b) fd (send_msg os hdr msg fd w)) all
      (IsFinal-OnWire (concat (hdr ∷ msg ∷ [])) w fd _
        (writev_retry-ends os (hdr ∷ msg ∷ []) fd 0 w a (omega arith) (omega arith))
        (writev_retry-Writes os (hdr ∷ msg ∷ []) fd 0 w))
