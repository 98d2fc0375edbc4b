-- ===== src/Libubus/Connect/Refused.antt =====
-- What a connection that fails leaves behind (ubus/libubus-io.c).
use libubus_jni.Prelude.{ℕ, ◌≡◌, refl, ap, false, List, ◌∷◌, none, some}
use libubus_jni.Ubusd.Inbox.{BlobLen}
use libubus_jni.Libubus.Connect.{Link, Greeting, is_hello, hang_up, reconnect}

-- A client without a connection gets a descriptor, but no valid HELLO on it, and cannot connect at
-- the next attempt: the first call of `ubus_reconnect` returns UBUS_STATUS_UNKNOWN_ERROR and
-- closes the descriptor, the second returns UBUS_STATUS_CONNECTION_FAILED and has closed the same
-- descriptor once more.
pub reconnect-closes_again :
    (B : BlobLen) (word : List ℕ → ℕ) (g g1 : Greeting) (l : Link) (fd : ℕ)
    → l.fd ≡ none
    → g.opened ≡ some fd
    → is_hello B g ≡ false
    → g1.opened ≡ none
    → (l1 l2 : Link) × (reconnect B word g l ≡ some (9, l1))
      × (l1.closed ≡ fd ∷ l.closed)
      × (reconnect B word g1 l1 ≡ some (10, l2))
      × (l2.closed ≡ fd ∷ fd ∷ l.closed)
unfolding reconnect hang_up
reconnect-closes_again B word g g1 l fd n o h o1 =
    let l1 : Link = record (hang_up l) { fd = some fd; closed = fd ∷ (hang_up l).closed } in
    let same : (hang_up l).closed ≡ l.closed = rw (n, hang_up) refl in
    (
      l1,
      record (hang_up l1) { fd = none },
      rw (o, reconnect) (rw h refl),
      ap (λ c. fd ∷ c) same,
      rw (o1, reconnect) refl,
      ap (λ c. fd ∷ fd ∷ c) same,
    )
