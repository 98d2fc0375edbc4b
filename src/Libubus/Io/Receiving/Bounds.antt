-- ===== src/Libubus/Io/Receiving/Bounds.antt =====
-- A message fits into the buffer that it is read into (ubus/libubus-io.c).
use libubus_jni.Prelude.{
  ℕ, zero, suc, ◌+◌, ◌-◌, ◌≤◌, ◌≡◌, refl, ap, ◌∙◌, arith, Bool, true, false, List, [], ◌∷◌, Option,
  none, some, take, drop, length, ltb, ◌==◌, Bool-cases, inl, inr, suc_ne, length-append,
  length-drop,
}
use libubus_jni.Ubusd.Txq.{hdr_size}
use libubus_jni.Ubusd.Inbox.{BlobLen, hdrbuf_size}
use libubus_jni.Libubus.Io.Receiving.{
  RecvOutcome, gives, again, interrupted, broken, stopped, Result, total, zero_read, failed, waits,
  Source, given, recv_retry, read_body, open_msg, Reader, chunk_size, alloc_msg_buf, get_next_msg,
  validate_hdr,
}
use libubus_jni.Libubus.Io.Receiving.Buffer.{
  RoomAtLeast, Fits, HasRoom, IsSized, alloc_msg_buf-Allocates,
}

-- How many bytes a reader of `len` bytes has put into its buffer.
abbrev Filled : Result → ℕ → ℕ → Type 0
Filled (total n) len got = got ≡ len
Filled zero_read len got = got ≤ len
Filled failed len got = got ≤ len
Filled waits len got = got ≤ len

length-take-exact : (n : ℕ) (xs : List ℕ) → n ≤ length xs → length (take n xs) ≡ n
length-take-exact zero xs h = refl
length-take-exact (suc n) [] h = absurd (omega arith)
length-take-exact (suc n) (x ∷ xs) h = ap suc (length-take-exact n xs (omega arith))

length-take-given : (n len : ℕ) (a : List ℕ) → length (take (given n len a) a) ≡ given n len a
length-take-given n len a = length-take-exact (given n len a) a (ground arith)

given-le : (n len : ℕ) (a : List ℕ) → given n len a ≤ len
given-le n len a = ground arith

-- The loop writes no more than it was asked to read.
recv_retry-Filled :
    (xs : List RecvOutcome) (len : ℕ) (wait ask : Bool) (sum : ℕ) (arriving buffer : List ℕ)
    (fd : Option ℕ) (all : ℕ)
    → all ≡ length buffer + len
    → let r = recv_retry xs len wait ask sum arriving buffer fd in
      Filled r.0 all (length r.1.buffer)
unfolding recv_retry
recv_retry-Filled [] zero wait ask sum arriving buffer fd all e = omega arith
recv_retry-Filled [] (suc len) wait ask sum arriving buffer fd all e = rw (suc_ne len) (omega arith)
recv_retry-Filled (x ∷ xs) zero wait ask sum arriving buffer fd all e = omega arith
recv_retry-Filled (gives n f ∷ xs) (suc len) wait ask sum arriving buffer fd all e =
    let k = length-take-given n (suc len) arriving in
    let joined = length-append buffer (take (given n (suc len) arriving) arriving) in
    let le = given-le n (suc len) arriving in
    rw (suc_ne len) (elim (Bool-cases (given n (suc len) arriving == 0)) [
      | inl z ↦ rw z (omega arith)
      | inr z ↦ rw z (recv_retry-Filled xs _ true false _ _ _ _ all (omega arith))
    ])
recv_retry-Filled (again ∷ xs) (suc len) true ask sum arriving buffer fd all e =
    rw (suc_ne len) (recv_retry-Filled xs (suc len) true false sum arriving buffer _ all e)
recv_retry-Filled (again ∷ xs) (suc len) false ask sum arriving buffer fd all e =
    rw (suc_ne len) (omega arith)
recv_retry-Filled (interrupted ∷ xs) (suc len) wait ask sum arriving buffer fd all e =
    rw (suc_ne len) (recv_retry-Filled xs (suc len) wait ask sum arriving buffer fd all e)
recv_retry-Filled (broken ∷ xs) (suc len) wait ask sum arriving buffer fd all e =
    rw (suc_ne len) (omega arith)
recv_retry-Filled (stopped ∷ xs) (suc len) wait ask sum arriving buffer fd all e =
    rw (suc_ne len) (omega arith)

-- What `get_next_msg` leaves.
abbrev pub StaysSized : Option (Bool × Source × Reader) → Type 0
StaysSized none = Unit
StaysSized (some (b, s, c)) = IsSized c

validate_hdr-raw_len :
    (B : BlobLen) (h : List ℕ) → validate_hdr B h ≡ true → 4 ≤ B.raw_len (drop hdr_size h)
unfolding validate_hdr
validate_hdr-raw_len B h e = ground arith

HasRoom-Fits : (m n : ℕ) (room : Option ℕ) → HasRoom n room → m ≤ n → Fits m room
HasRoom-Fits m n none h le = absurd h
HasRoom-Fits m n (some k) h le = omega arith

result-StaysSized :
    (len : ℕ) (r : Result) (s : Source) (c : Reader)
    → c.msgbuf_data_len ≡ chunk_size
    → RoomAtLeast chunk_size c.room
    → HasRoom len c.room
    → Filled r len (length s.buffer)
    → let c1 = record c { data_bytes = s.buffer } in
      StaysSized (elim r as (λ _. Option (Bool × Source × Reader)) [
        | total n ↦ some (ltb 0 n, s, c1)
        | zero_read ↦ some (false, s, c1)
        | failed ↦ some (true, s, c1)
        | waits ↦ none
      ])
result-StaysSized len (total n) s c k big h f =
    (k, big, HasRoom-Fits (length s.buffer) len c.room h (omega arith))
result-StaysSized len zero_read s c k big h f =
    (k, big, HasRoom-Fits (length s.buffer) len c.room h f)
result-StaysSized len failed s c k big h f = (k, big, HasRoom-Fits (length s.buffer) len c.room h f)
result-StaysSized len waits s c k big h f = tt

read_body-StaysSized :
    (len : ℕ) (s : Source) (c : Reader)
    → 4 ≤ len
    → c.msgbuf_data_len ≡ chunk_size
    → RoomAtLeast chunk_size c.room
    → HasRoom len c.room
    → length c.data_bytes ≡ 4
    → StaysSized (read_body len s c)
unfolding read_body
read_body-StaysSized len s c p k big h four = elim (Bool-cases (len == 4)) [
  | inl e ↦ rw e (k, big, HasRoom-Fits (length c.data_bytes) len c.room h (omega arith))
  | inr e ↦ rw e (
      result-StaysSized len _ _ c k big h (
        recv_retry-Filled s.calls (len - 4) true false 0 s.arriving c.data_bytes s.fd len
          (omega arith)))
]

open_msg-StaysSized :
    (B : BlobLen) (R : ℕ → Bool) (s : Source) (c : Reader)
    → length s.buffer ≡ hdrbuf_size
    → IsSized c
    → StaysSized (open_msg B R s c)
unfolding open_msg
open_msg-StaysSized B R s c e z =
    let len = B.raw_len (drop hdr_size s.buffer) in
    elim (Bool-cases (validate_hdr B s.buffer)) [
      | inr v ↦ rw v z
      | inl v ↦
          let p = validate_hdr-raw_len B s.buffer v in
          let a = alloc_msg_buf-Allocates len (omega arith) R c z.0 z.1 in
          rw v (elim (Bool-cases (alloc_msg_buf R len c).0) [
            | inl f ↦ rw f (
                read_body-StaysSized len s _ p a.constant a.chunk (a.success f)
                  (length-drop hdr_size s.buffer ∙ (omega arith)))
            | inr f ↦ rw f (a.constant, a.chunk, rw (a.failure f, a.bytes) z.2)
          ])
    ]

opened-StaysSized :
    (B : BlobLen) (R : ℕ → Bool) (r : Result) (s : Source) (c : Reader)
    → Filled r hdrbuf_size (length s.buffer)
    → IsSized c
    → StaysSized (elim r as (λ _. Option (Bool × Source × Reader)) [
      | total _ ↦ open_msg B R s c
      | zero_read ↦ some (false, s, c)
      | failed ↦ some (false, s, record c { eof = true })
      | waits ↦ none
    ])
opened-StaysSized B R (total n) s c f z = open_msg-StaysSized B R s c f z
opened-StaysSized B R zero_read s c f z = z
opened-StaysSized B R failed s c f z = z
opened-StaysSized B R waits s c f z = tt

-- While `msgbuf_data_len` is UBUS_MSG_CHUNK_SIZE, the buffer, if there is one, has room for as
-- many bytes, and the bytes of the message fit into it, or are none if there is no buffer, all
-- this stays so through `get_next_msg`, whatever arrives in whatever pieces, whether calls fail
-- and whether there is memory: no message is written beyond the end of the buffer.
pub get_next_msg-StaysSized :
    (B : BlobLen) (R : ℕ → Bool) (calls : List RecvOutcome) (arriving : List ℕ) (fd : Option ℕ)
    (c : Reader)
    → IsSized c
    → StaysSized (get_next_msg B R calls arriving fd c)
unfolding get_next_msg
get_next_msg-StaysSized B R calls arriving fd c z =
    opened-StaysSized B R _ _ c
      (recv_retry-Filled calls hdrbuf_size false true 0 arriving [] fd hdrbuf_size refl) z
