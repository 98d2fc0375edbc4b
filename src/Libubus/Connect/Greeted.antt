-- ===== src/Libubus/Connect/Greeted.antt =====
-- A connection that ubusd accepts (ubus/libubus-io.c).
use libubus_jni.Prelude.{ℕ, ◌≡◌, ◌≢◌, refl, arith, true, false, List, ◌∷◌, some, take, drop, ◌==◌}
use libubus_jni.Libubox.Tree.{id_ord}
use libubus_jni.Ubusd.Inbox.{BlobLen}
use libubus_jni.Libubus.Object.{Host, object}
use libubus_jni.Libubus.Registry.{Reply}
use libubus_jni.Libubus.Registry.Keyed.{Keyed}
use libubus_jni.Libubus.Registry.Fresh.{answers, Fits, Apart, Differ, Filed}
use libubus_jni.Libubus.Registry.Refreshed.{Fits-all, refresh_state-Filed}
use libubus_jni.Libubus.Connect.{Link, Greeting, is_hello, hang_up, reconnect}

-- A client with an old connection gets a new one, on which ubusd greets it with a valid HELLO
-- whose peer is not 0; every object of the tree is in memory and stands there once, and ubusd
-- answers for each in turn with one message that has an id, all of them different, and a type only
-- if the object has one: `ubus_reconnect` returns 0 without a fault, has closed the old descriptor
-- alone, has the new one and the id from the greeting, every object is filed under its new id, and
-- every object of the tree then has the id under which it is filed.
pub reconnect-Filed :
    (B : BlobLen) (word : List ℕ → ℕ) (g : Greeting) (l : Link) (fd old : ℕ) (rs : List (ℕ × Reply))
    → l.fd ≡ some old
    → g.opened ≡ some fd
    → is_hello B g ≡ true
    → word (take 4 (drop 4 g.header)) ≢ 0
    → g.answers ≡ answers rs
    → Fits l.host.objects rs l.host
    → Apart l.host.objects
    → Differ rs
    → (l1 : Link) × (reconnect B word g l ≡ some (0, l1))
      × (l1.fd ≡ some fd)
      × (l1.closed ≡ old ∷ l.closed)
      × (l1.local_id ≡ word (take 4 (drop 4 g.header)))
      × Filed l.host.objects rs l1.host.objects
      × Keyed l1.host
unfolding reconnect hang_up object
reconnect-Filed B word g l fd old rs f o y n a fits ap1 d =
    let h0 : Host = record l.host { registered = false } in
    let (h1, r, filed, keyed) =
      refresh_state-Filed rs h0 (Fits-all l.host.objects rs l.host h0 (λ b p q. (p, q, refl)) fits)
        ap1 d in
    let zero_test : (word (take 4 (drop 4 g.header)) == 0) ≡ false = ground arith in
    (
      record l {
        host = h1;
        fd = some fd;
        local_id = word (take 4 (drop 4 g.header));
        closed = old ∷ l.closed;
      },
      rw (o, reconnect) (rw (y, f, zero_test) (rw (a, r) refl)),
      refl,
      refl,
      refl,
      filed,
      keyed,
    )
