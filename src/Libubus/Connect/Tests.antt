-- ===== src/Libubus/Connect/Tests.antt =====
-- Connections at concrete inputs.
use libubus_jni.Prelude.{ℕ, ◌≡◌, refl, true, [], ◌∷◌, none, some, arith, inl, inr, List}
use libubus_jni.Libubox.Tree.{find, id_ord}
use libubus_jni.Ubusd.Inbox.{BlobLen}
use libubus_jni.Libubus.Object.{object}
use libubus_jni.Libubus.Object.Samples.{net}
use libubus_jni.Libubus.Registry.Samples.{dhcp, two_objects, new_ids}
use libubus_jni.Libubus.Registry.Keyed.{Keyed}
use libubus_jni.Libubus.Registry.Fresh.{answers, Filed}
use libubus_jni.Libubus.Io.Receiving.{validate_hdr}
use libubus_jni.Libubus.Connect.{Link, Greeting, is_hello, reconnect}
use libubus_jni.Libubus.Connect.Refused.{reconnect-closes_again}
use libubus_jni.Libubus.Connect.Greeted.{reconnect-Filed}

abbrev four : BlobLen
four = record { raw_len = λ bs. 4; pad_len = λ bs. 4 }

abbrev lowest : List ℕ → ℕ
lowest [] = 0
lowest (b ∷ bs) = b

-- ubusd greets client 7.
abbrev greeting : Greeting
greeting = record {
  opened = some 12;
  header = 0 ∷ 0 ∷ 0 ∷ 0 ∷ 7 ∷ 0 ∷ 0 ∷ 0 ∷ 0 ∷ 0 ∷ 0 ∷ 4 ∷ [];
  allocated = true;
  payload = [];
  answers = answers new_ids;
}

abbrev before : Link
before = record { host = two_objects; fd = some 11; local_id = 5; closed = [] }

reconnect-Filed_example :
    (l1 : Link) × (reconnect four lowest greeting before ≡ some (0, l1))
    × (l1.fd ≡ some 12)
    × (l1.closed ≡ 11 ∷ [])
    × (l1.local_id ≡ 7)
    × Filed ((1500, 80) ∷ (2000, 64) ∷ []) new_ids l1.host.objects
    × Keyed l1.host
unfolding is_hello validate_hdr object find
reconnect-Filed_example =
    reconnect-Filed four lowest greeting before 12 11 new_ids refl refl refl (ground arith) refl
      ((dhcp, refl, inr (9, refl)), refl, ((net, refl, inl refl), refl, tt)) (refl, (refl, tt))
      ((ground arith, tt), (tt, tt))

-- ubusd ends before it greets, and then cannot be reached.
reconnect-closes_again_example :
    (l1 l2 : Link) × (reconnect four lowest
        (record greeting { header = [] })
        (record before { fd = none })
      ≡ some (9, l1))
    × (l1.closed ≡ 12 ∷ [])
    × (reconnect four lowest (record greeting { opened = none }) l1 ≡ some (10, l2))
    × (l2.closed ≡ 12 ∷ 12 ∷ [])
unfolding is_hello
reconnect-closes_again_example =
    reconnect-closes_again four lowest (record greeting { header = [] })
      (record greeting { opened = none }) (record before { fd = none }) 12 refl refl refl refl
