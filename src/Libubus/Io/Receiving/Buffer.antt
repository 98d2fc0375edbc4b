-- ===== src/Libubus/Io/Receiving/Buffer.antt =====
-- The buffer that a message is read into (ubus/libubus-io.c).
use libubus_jni.Prelude.{
  ℕ, ◌≤◌, ◌<◌, ◌≡◌, refl, arith, Bool, true, false, List, Option, none, some, length, ltb, leb,
  if◌then◌else◌, Bool-cases, Option-cases, inl, inr,
}
use libubus_jni.Libubus.Io.Receiving.{Reader, round_up, chunk_size, alloc_msg_buf}

-- The buffer has room for `msgbuf_data_len` bytes, where there is a buffer.
abbrev pub RoomAtLeast : ℕ → Option ℕ → Type 0
RoomAtLeast n none = Unit
RoomAtLeast n (some m) = n ≤ m

-- The bytes stand in the buffer: none where there is no buffer.
abbrev pub Fits : ℕ → Option ℕ → Type 0
Fits n none = n ≡ 0
Fits n (some m) = n ≤ m

abbrev pub HasRoom : ℕ → Option ℕ → Type 0
HasRoom n none = ⊥
HasRoom n (some m) = n ≤ m

-- The buffer is one chunk at least, and holds the bytes of the message in it.
abbrev pub IsSized : Reader → Type 0
IsSized c =
    (c.msgbuf_data_len ≡ chunk_size)
    × RoomAtLeast chunk_size c.room
    × Fits (length c.data_bytes) c.room

round_up-bounds : (n : ℕ) → 0 < n → (n ≤ round_up n) × (chunk_size ≤ round_up n)
unfolding round_up
round_up-bounds n p = (ground arith, ground arith)

-- What `alloc_msg_buf` does for a message of `len` bytes, when the buffer has that room and those
-- bytes.
pub record Allocates (len : ℕ) (room : Option ℕ) (old : List ℕ) (r : Bool × Reader) : Type 0 where
  pub constant : r.1.msgbuf_data_len ≡ chunk_size
  pub chunk : RoomAtLeast chunk_size r.1.room
  pub success : r.0 ≡ true → HasRoom len r.1.room
  pub failure : r.0 ≡ false → r.1.room ≡ room
  pub bytes : r.1.data_bytes ≡ old

module _ (len : ℕ) (p : 0 < len) where
  -- The buffer as it is.
  kept-Allocates :
      (c : Reader) (m : ℕ)
      → c.msgbuf_data_len ≡ chunk_size
      → chunk_size ≤ m
      → round_up len ≤ chunk_size
      → Allocates len (some m) c.data_bytes (true, record c { room = some m })
  kept-Allocates c m k big h =
      let (le, chunk) = round_up-bounds len p in
      record {
        constant = k;
        chunk = big;
        success = λ _. omega arith;
        failure = λ f. absurd (ground arith);
        bytes = refl;
      }

  -- A new one.
  realloc-Allocates :
      (b : Bool) (c : Reader)
      → c.msgbuf_data_len ≡ chunk_size
      → RoomAtLeast chunk_size c.room
      → Allocates len c.room c.data_bytes
          (if b then (true, record c { room = some (round_up len) }) else (false, c))
  realloc-Allocates true c k big =
      let (le, chunk) = round_up-bounds len p in
      record {
        constant = k;
        chunk = chunk;
        success = λ _. le;
        failure = λ f. absurd (ground arith);
        bytes = refl;
      }
  realloc-Allocates false c k big = record {
    constant = k;
    chunk = big;
    success = λ f. absurd (ground arith);
    failure = λ _. refl;
    bytes = refl;
  }

  pub alloc_msg_buf-Allocates :
      (R : ℕ → Bool) (c : Reader)
      → c.msgbuf_data_len ≡ chunk_size
      → RoomAtLeast chunk_size c.room
      → Allocates len c.room c.data_bytes (alloc_msg_buf R len c)
  unfolding alloc_msg_buf
  alloc_msg_buf-Allocates R c k big =
      let (le, chunk) = round_up-bounds len p in
      let e0 : ltb (round_up len) 0 ≡ false = ground arith in
      let e1 : leb (round_up len) 0 ≡ false = ground arith in
      let e2 : ltb (round_up len) chunk_size ≡ false = ground arith in
      elim (Option-cases c.room) [
        | inl n ↦
            rw (n, e0, e1) (realloc-Allocates (R (round_up len)) (record c { room = none }) k tt)
        | inr (m, n) ↦
            let big_m : chunk_size ≤ m = rw n at big in
            rw (n, k, e2)
              (elim (Bool-cases (leb (round_up len) chunk_size)) [
                | inl l ↦ rw l (
                    kept-Allocates (record c { msgbuf_data_len = chunk_size }) m refl big_m
                      (ground arith))
                | inr l ↦ rw l (
                    realloc-Allocates (R (round_up len))
                      (record c { room = some m; msgbuf_data_len = chunk_size }) refl big_m)
              ])
      ]
