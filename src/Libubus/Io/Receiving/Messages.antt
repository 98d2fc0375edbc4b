-- ===== src/Libubus/Io/Receiving/Messages.antt =====
-- The messages that are sent are those that are processed (ubus/libubus-io.c).
use libubus_jni.Prelude.{
  ℕ, ◌+◌, ◌≤◌, ◌<◌, ◌≡◌, arith, Bool, List, [], ◌∷◌, ◌++◌, Option, length, length-append,
}
use libubus_jni.Ubusd.Inbox.{BlobLen}
use libubus_jni.Ubusd.Inbox.Frames.{Sent, IsMessage}
use libubus_jni.Libubus.Io.Receiving.{RecvOutcome, gives, Reader, get_next_msg, version}
use libubus_jni.Libubus.Io.Receiving.Pieces.{
  AllGive, count_gives, recv_retry-first, recv_retry-ready,
}
use libubus_jni.Libubus.Io.Receiving.Opening.{bytes_of, NeverFails, Gets, header-Gets}

length-bytes_of :
    (B : BlobLen) (m : Sent)
    → IsMessage B m
    → (rest : List ℕ) → length (bytes_of m ++ rest) ≡ 12 + length m.body + length rest
length-bytes_of B m h rest = omega (
  arith,
  length-append (bytes_of m) rest,
  length-append m.hdr (m.attr ++ m.body),
  length-append m.attr m.body,
  h.hdr_whole,
  h.attr_whole,
)

-- A message of version 0 with an 8-byte header, four bytes that announce the length of all
-- attributes (at most UBUS_MAX_MSGLEN with padding) and the rest arrives; the first call of
-- `recvmsg` gives a byte at least and a descriptor or none, each later one gives a byte at least
-- or fails with EAGAIN or EINTR, there are as many that give bytes as the message has bytes, and
-- memory never runs out: then `get_next_msg` returns true with the header, the attributes and the
-- descriptor of the first call, and leaves the bytes behind the message.
pub get_next_msg-Gets :
    (B : BlobLen) (R : ℕ → Bool) (m : Sent) (n : ℕ) (f fd : Option ℕ) (xs : List RecvOutcome)
    (rest : List ℕ) (c : Reader)
    → IsMessage B m
    → version m.hdr ≡ 0
    → NeverFails R
    → 0 < n
    → AllGive Unit xs
    → 12 + length m.body ≤ count_gives (gives n f ∷ xs)
    → Gets Unit
        (gives n f ∷ xs)
        m
        f
        rest
        (get_next_msg B R (gives n f ∷ xs) (bytes_of m ++ rest) fd c)
unfolding get_next_msg
get_next_msg-Gets B R m n f fd xs rest c h v realloc p a e =
    let size = length-bytes_of B m h rest in
    header-Gets B Unit m h (gives n f ∷ xs) rest R f c _ realloc v e (
      recv_retry-first Unit n f xs 12 0 (bytes_of m ++ rest) [] fd p a (omega arith) (omega arith)
        (omega arith))

-- Where the first call may be interrupted, but none has to wait.
pub get_next_msg-ready :
    (B : BlobLen) (R : ℕ → Bool) (m : Sent) (fd : Option ℕ) (calls : List RecvOutcome)
    (rest : List ℕ) (c : Reader)
    → IsMessage B m
    → version m.hdr ≡ 0
    → NeverFails R
    → AllGive ⊥ calls
    → 12 + length m.body ≤ count_gives calls
    → (f : Option ℕ) × Gets ⊥ calls m f rest (get_next_msg B R calls (bytes_of m ++ rest) fd c)
unfolding get_next_msg
get_next_msg-ready B R m fd calls rest c h v realloc a e =
    let size = length-bytes_of B m h rest in
    let (f, d) =
      recv_retry-ready calls 12 0 (bytes_of m ++ rest) [] fd a (omega arith) (omega arith)
        (omega arith) in
    (f, header-Gets B ⊥ m h calls rest R f c _ realloc v e d)
