-- ===== src/Libubus/Io/Receiving/Opening.antt =====
-- A message behind its header (ubus/libubus-io.c).
use mathlib.Core.Path.{subst}
use mathlib.Core.List.{append_assoc, append-nil}
use libubus_jni.Prelude.{
  ℕ, ◌+◌, ◌-◌, ◌≤◌, ◌<◌, ◌≡◌, refl, sym, ap, ◌∙◌, arith, Bool, true, false, List, [], ◌∷◌, ◌++◌,
  Option, none, some, take, drop, length, ltb, if◌then◌else◌, ◌==◌, Bool-cases, inl, inr,
  length-append, take-prefix, drop-prefix,
}
use libubus_jni.Ubusd.Txq.{hdr_size}
use libubus_jni.Ubusd.Inbox.{BlobLen, max_msglen, hdrbuf_size}
use libubus_jni.Ubusd.Inbox.Frames.{Sent, IsMessage}
use libubus_jni.Libubus.Io.Receiving.{
  RecvOutcome, Result, total, zero_read, failed, waits, Source, recv_retry, Reader, alloc_msg_buf,
  validate_hdr, read_body, open_msg, version,
}
use libubus_jni.Libubus.Io.Receiving.Pieces.{AllGive, count_gives, Reads, recv_retry-Reads}

abbrev pub bytes_of : Sent → List ℕ
bytes_of s = s.hdr ++ (s.attr ++ s.body)

-- Every size can be had from `realloc`.
abbrev pub NeverFails : (ℕ → Bool) → Type 0
NeverFails R = (n : ℕ) → R n ≡ true

-- `get_next_msg` has read this message, and the calls and bytes behind it are left.
pub record Gets (W : Type 0) (calls : List RecvOutcome) (m : Sent) (fd : Option ℕ) (rest : List ℕ)
    (r : Option (Bool × Source × Reader)) : Type 0 where
  pub source : Source
  pub reader : Reader
  pub result : r ≡ some (true, source, reader)
  pub rest_left : source.arriving ≡ rest
  pub hdr : reader.hdr ≡ m.hdr
  pub payload : reader.data_bytes ≡ m.attr ++ m.body
  pub fd_given : source.fd ≡ fd
  pub calls_give : AllGive W source.calls
  pub enough : count_gives calls ≤ count_gives source.calls + (12 + length m.body)

length-zero : (xs : List ℕ) → length xs ≡ 0 → xs ≡ []
length-zero [] e = refl
length-zero (x ∷ xs) e = absurd (omega arith)

version-append : (xs ys : List ℕ) → 0 < length xs → version (xs ++ ys) ≡ version xs
version-append [] ys p = absurd (omega arith)
version-append (x ∷ xs) ys p = refl

validate_hdr-IsMessage :
    (B : BlobLen) (m : Sent)
    → IsMessage B m
    → version m.hdr ≡ 0
    → validate_hdr B (m.hdr ++ m.attr) ≡ true
unfolding validate_hdr
validate_hdr-IsMessage B m h v =
    let le = h.short in
    let pos : 0 < length m.hdr = omega (arith, h.hdr_whole) in
    let e1 : ltb (4 + length m.body) 4 ≡ false = ground arith in
    let e2 : ltb max_msglen (B.pad_len m.attr) ≡ false = ground arith in
    rw (version-append m.hdr m.attr pos, v, drop-prefix 8 m.hdr m.attr h.hdr_whole, h.raw, e1, e2)
      refl

either-true :
    (b r : Bool) (x y z : Bool × Reader)
    → x.0 ≡ true
    → y.0 ≡ true
    → r ≡ true
    → (if◌then◌else◌ {A = Bool × Reader} b x (if r then y else z)).0 ≡ true
either-true true r x y z e e1 f = e
either-true false true x y z e e1 f = e1
either-true false false x y z e e1 f = absurd (ground arith)

alloc_msg_buf-true :
    (R : ℕ → Bool) (len : ℕ) (c : Reader) → NeverFails R → (alloc_msg_buf R len c).0 ≡ true
unfolding alloc_msg_buf
alloc_msg_buf-true R len c a = either-true _ _ _ _ _ refl refl (a _)

module _ (B : BlobLen) (W : Type 0) (m : Sent) (h : IsMessage B m) (calls : List RecvOutcome)
    (rest : List ℕ) where
  no_body-Gets :
      (s : Source) (c : Reader)
      → s.arriving ≡ m.body ++ rest
      → c.hdr ≡ m.hdr
      → c.data_bytes ≡ m.attr
      → AllGive W s.calls
      → count_gives calls ≤ count_gives s.calls + 12
      → length m.body ≡ 0
      → Gets W calls m s.fd rest (some (true, s, c))
  no_body-Gets s c e e1 e2 a n z =
      let empty : m.body ≡ [] = length-zero m.body z in
      record {
        source = s;
        reader = c;
        result = refl;
        rest_left = e ∙ ap (λ b. b ++ rest) empty;
        hdr = e1;
        payload = e2 ∙ sym (append-nil m.attr) ∙ ap (◌++◌ m.attr) (sym empty);
        fd_given = refl;
        calls_give = a;
        enough = omega arith;
      }

  some_body-Gets :
      (s : Source) (c : Reader) (r : Result × Source)
      → s.arriving ≡ m.body ++ rest
      → c.hdr ≡ m.hdr
      → c.data_bytes ≡ m.attr
      → count_gives calls ≤ count_gives s.calls + 12
      → 0 < length m.body
      → Reads W s.calls (length m.body) 0 s.arriving c.data_bytes s.fd r
      → let c1 = record c { data_bytes = r.1.buffer } in
        Gets W calls m s.fd rest (elim r.0 as (λ _. Option (Bool × Source × Reader)) [
          | total n ↦ some (ltb 0 n, r.1, c1)
          | zero_read ↦ some (false, r.1, c1)
          | failed ↦ some (true, r.1, c1)
          | waits ↦ none
        ])
  some_body-Gets s c r e e1 e2 n p v =
      let le = v.enough in
      let any : ltb 0 (0 + length m.body) ≡ true = ground arith in
      record {
        source = r.1;
        reader = record c { data_bytes = r.1.buffer };
        result = rw (v.result, any) refl;
        rest_left =
            v.rest ∙ ap (drop (length m.body)) e ∙ drop-prefix (length m.body) m.body rest refl;
        hdr = e1;
        payload =
            v.read
            ∙ ap (λ b. b ++ take (length m.body) s.arriving) e2
            ∙ ap (λ b. m.attr ++ take (length m.body) b) e
            ∙ ap (◌++◌ m.attr) (take-prefix (length m.body) m.body rest refl);
        fd_given = v.same_fd;
        calls_give = v.calls_give;
        enough = omega arith;
      }

  read_body-Gets :
      (s : Source) (c : Reader)
      → s.arriving ≡ m.body ++ rest
      → c.hdr ≡ m.hdr
      → c.data_bytes ≡ m.attr
      → AllGive W s.calls
      → length m.body ≤ count_gives s.calls
      → count_gives calls ≤ count_gives s.calls + 12
      → Gets W calls m s.fd rest (read_body (4 + length m.body) s c)
  unfolding read_body
  read_body-Gets s c e e1 e2 a n n2 =
      let sub : 4 + length m.body - 4 ≡ length m.body = omega arith in
      let size = ap length e ∙ length-append m.body rest in
      elim (Bool-cases (4 + length m.body == 4)) [
        | inl z ↦ rw z (no_body-Gets s c e e1 e2 a n2 (ground arith))
        | inr z ↦ rw z (
            some_body-Gets s c _ e e1 e2 n2 (ground arith) (
              subst
                (λ k.
                  Reads W s.calls (length m.body) 0 s.arriving c.data_bytes s.fd
                    (recv_retry s.calls k true false 0 s.arriving c.data_bytes s.fd))
                (sym sub)
                (recv_retry-Reads W s.calls (length m.body) 0 s.arriving c.data_bytes s.fd a n
                  (omega arith))))
      ]

  open_msg-Gets :
      (R : ℕ → Bool) (s : Source) (c : Reader)
      → NeverFails R
      → version m.hdr ≡ 0
      → s.buffer ≡ m.hdr ++ m.attr
      → s.arriving ≡ m.body ++ rest
      → AllGive W s.calls
      → length m.body ≤ count_gives s.calls
      → count_gives calls ≤ count_gives s.calls + 12
      → Gets W calls m s.fd rest (open_msg B R s c)
  unfolding open_msg
  open_msg-Gets R s c realloc v b e a n n2 =
      let valid = ap (validate_hdr B) b ∙ validate_hdr-IsMessage B m h v in
      let attr = ap (drop hdr_size) b ∙ drop-prefix hdr_size m.hdr m.attr h.hdr_whole in
      let hdr = ap (take hdr_size) b ∙ take-prefix hdr_size m.hdr m.attr h.hdr_whole in
      rw (valid, attr, hdr, h.raw, alloc_msg_buf-true R (4 + length m.body) c realloc)
        (read_body-Gets s _ e refl refl a n n2)

  -- From the reading of the header on.
  pub header-Gets :
      (R : ℕ → Bool) (fd : Option ℕ) (c : Reader) (r : Result × Source)
      → NeverFails R
      → version m.hdr ≡ 0
      → 12 + length m.body ≤ count_gives calls
      → Reads W calls hdrbuf_size 0 (bytes_of m ++ rest) [] fd r
      → Gets W calls m fd rest (elim r.0 as (λ _. Option (Bool × Source × Reader)) [
        | total _ ↦ open_msg B R r.1 c
        | zero_read ↦ some (false, r.1, c)
        | failed ↦ some (false, r.1, record c { eof = true })
        | waits ↦ none
      ])
  header-Gets R fd c r realloc v n d =
      let head : length (m.hdr ++ m.attr) ≡ 12 =
        omega (arith, length-append m.hdr m.attr, h.hdr_whole, h.attr_whole) in
      let shape : bytes_of m ++ rest ≡ (m.hdr ++ m.attr) ++ (m.body ++ rest) =
        ap (λ b. b ++ rest) (sym (append_assoc m.hdr m.attr m.body))
        ∙ append_assoc (m.hdr ++ m.attr) m.body rest in
      let le = d.enough in
      rw (d.result, ← d.same_fd)
        (open_msg-Gets R r.1 c realloc v
          (d.read ∙ ap (take 12) shape ∙ take-prefix 12 (m.hdr ++ m.attr) (m.body ++ rest) head)
          (d.rest ∙ ap (drop 12) shape ∙ drop-prefix 12 (m.hdr ++ m.attr) (m.body ++ rest) head)
          d.calls_give (omega arith) le)
