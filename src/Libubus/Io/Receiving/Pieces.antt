-- ===== src/Libubus/Io/Receiving/Pieces.antt =====
-- What is read does not depend on the pieces in which it arrives (ubus/libubus-io.c).
use mathlib.Core.List.{append_assoc, append-nil}
use libubus_jni.Prelude.{
  ℕ, zero, suc, ◌+◌, ◌-◌, ◌≤◌, ◌<◌, ◌≡◌, refl, sym, ap, ◌∙◌, arith, true, false, List, [], ◌∷◌,
  ◌++◌, Option, take, drop, length, ◌==◌, suc_ne, drop-drop, length-drop, take-take-drop,
}
use libubus_jni.Libubus.Io.Receiving.{
  RecvOutcome, gives, again, interrupted, broken, stopped, Result, total, Source, given, recv_retry,
}

-- Every call of `recvmsg` gives a byte at least, or is to be made again; `W` says whether that may be
-- because it has to wait.
abbrev pub AllGive : Type 0 → List RecvOutcome → Type 0
AllGive W [] = Unit
AllGive W (gives n f ∷ xs) = (0 < n) × AllGive W xs
AllGive W (again ∷ xs) = W × AllGive W xs
AllGive W (interrupted ∷ xs) = AllGive W xs
AllGive W (broken ∷ xs) = ⊥
AllGive W (stopped ∷ xs) = ⊥

abbrev pub count_gives : List RecvOutcome → ℕ
count_gives [] = 0
count_gives (gives n f ∷ xs) = suc (count_gives xs)
count_gives (again ∷ xs) = count_gives xs
count_gives (interrupted ∷ xs) = count_gives xs
count_gives (broken ∷ xs) = count_gives xs
count_gives (stopped ∷ xs) = count_gives xs

-- `len` bytes of those that arrive have been read, by no more calls than bytes.
pub record Reads (W : Type 0) (calls : List RecvOutcome) (len sum : ℕ) (arriving buffer : List ℕ)
    (fd : Option ℕ) (r : Result × Source) : Type 0 where
  pub result : r.0 ≡ total (sum + len)
  pub read : r.1.buffer ≡ buffer ++ take len arriving
  pub rest : r.1.arriving ≡ drop len arriving
  pub same_fd : r.1.fd ≡ fd
  pub calls_give : AllGive W r.1.calls
  pub enough : count_gives calls ≤ count_gives r.1.calls + len

pub given-bounds :
    (n len : ℕ) (arriving : List ℕ)
    → 0 < n
    → 0 < len
    → len ≤ length arriving
    → (0 < given n len arriving) × (given n len arriving ≤ len)
given-bounds n len arriving p q h = (ground arith, ground arith)

module _ (W : Type 0) where
  none-Reads :
      (calls : List RecvOutcome) (sum : ℕ) (arriving buffer : List ℕ) (fd : Option ℕ)
      → AllGive W calls
      → Reads W calls 0 sum arriving buffer fd
          (total sum, record { calls = calls; arriving = arriving; buffer = buffer; fd = fd })
  none-Reads calls sum arriving buffer fd a = record {
    result = ap total (omega arith);
    read = sym (append-nil buffer);
    rest = refl;
    same_fd = refl;
    calls_give = a;
    enough = omega arith;
  }

  -- Behind a call that gives `bytes` of them, the rest.
  more-Reads :
      (calls xs : List RecvOutcome) (bytes len sum : ℕ) (arriving buffer : List ℕ) (fd : Option ℕ)
      (r : Result × Source)
      → 0 < bytes
      → bytes ≤ len
      → count_gives calls ≤ suc (count_gives xs)
      → Reads W xs
          (len - bytes)
          (sum + bytes)
          (drop bytes arriving)
          (buffer ++ take bytes arriving)
          fd
          r
      → Reads W calls len sum arriving buffer fd r
  more-Reads calls xs bytes len sum arriving buffer fd r p le c v =
      let e : bytes + (len - bytes) ≡ len = omega arith in
      let enough_left = v.enough in
      record {
        result = v.result ∙ ap total (omega arith);
        read =
            v.read
            ∙ append_assoc buffer (take bytes arriving) (take (len - bytes) (drop bytes arriving))
            ∙ ap (◌++◌ buffer)
                (take-take-drop bytes (len - bytes) arriving ∙ ap (λ n. take n arriving) e);
        rest = v.rest ∙ drop-drop bytes (len - bytes) arriving ∙ ap (λ n. drop n arriving) e;
        same_fd = v.same_fd;
        calls_give = v.calls_give;
        enough = omega arith;
      }

  again-Reads :
      (xs : List RecvOutcome) (x : RecvOutcome) (len sum : ℕ) (arriving buffer : List ℕ)
      (fd : Option ℕ) (r : Result × Source)
      → count_gives (x ∷ xs) ≡ count_gives xs
      → Reads W xs len sum arriving buffer fd r
      → Reads W (x ∷ xs) len sum arriving buffer fd r
  again-Reads xs x len sum arriving buffer fd r e v = record {
    result = v.result;
    read = v.read;
    rest = v.rest;
    same_fd = v.same_fd;
    calls_give = v.calls_give;
    enough = let h = v.enough in omega arith;
  }

  -- With `wait` set.
  pub recv_retry-Reads :
      (xs : List RecvOutcome) (len sum : ℕ) (arriving buffer : List ℕ) (fd : Option ℕ)
      → AllGive W xs
      → len ≤ count_gives xs
      → len ≤ length arriving
      → Reads W xs len sum arriving buffer fd (recv_retry xs len true false sum arriving buffer fd)
  unfolding recv_retry
  recv_retry-Reads [] zero sum arriving buffer fd a c h = none-Reads [] sum arriving buffer fd a
  recv_retry-Reads (x ∷ xs) zero sum arriving buffer fd a c h =
      none-Reads (x ∷ xs) sum arriving buffer fd a
  recv_retry-Reads [] (suc len) sum arriving buffer fd a c h = absurd (omega arith)
  recv_retry-Reads (gives n f ∷ xs) (suc len) sum arriving buffer fd a c h =
      let (pos, le) = given-bounds n (suc len) arriving a.0 (omega arith) h in
      let e1 : (given n (suc len) arriving == 0) ≡ false = ground arith in
      let rest = length-drop (given n (suc len) arriving) arriving in
      rw (suc_ne len, e1)
        (more-Reads (gives n f ∷ xs) xs _ (suc len) sum arriving buffer fd _ pos le (omega arith)
          (recv_retry-Reads xs _ _ _ _ fd a.1 (omega arith) (omega arith)))
  recv_retry-Reads (again ∷ xs) (suc len) sum arriving buffer fd a c h = rw (suc_ne len) (
      again-Reads xs again _ _ _ _ _ _ refl
        (recv_retry-Reads xs (suc len) sum arriving buffer fd a.1 c h))
  recv_retry-Reads (interrupted ∷ xs) (suc len) sum arriving buffer fd a c h = rw (suc_ne len) (
      again-Reads xs interrupted _ _ _ _ _ _ refl
        (recv_retry-Reads xs (suc len) sum arriving buffer fd a c h))
  recv_retry-Reads (broken ∷ xs) (suc len) sum arriving buffer fd a c h = absurd a
  recv_retry-Reads (stopped ∷ xs) (suc len) sum arriving buffer fd a c h = absurd a

  -- Without it the first call has to give bytes, and a descriptor comes with these.
  pub recv_retry-first :
      (n : ℕ) (f : Option ℕ) (xs : List RecvOutcome) (len sum : ℕ) (arriving buffer : List ℕ)
      (fd : Option ℕ)
      → 0 < n
      → AllGive W xs
      → 0 < len
      → len ≤ suc (count_gives xs)
      → len ≤ length arriving
      → Reads W
          (gives n f ∷ xs)
          len
          sum
          arriving
          buffer
          f
          (recv_retry (gives n f ∷ xs) len false true sum arriving buffer fd)
  unfolding recv_retry
  recv_retry-first n f xs len sum arriving buffer fd p a q c h =
      let (pos, le) = given-bounds n len arriving p q h in
      let e : (len == 0) ≡ false = ground arith in
      let e1 : (given n len arriving == 0) ≡ false = ground arith in
      let rest = length-drop (given n len arriving) arriving in
      rw (e, e1)
        (more-Reads (gives n f ∷ xs) xs _ len sum arriving buffer f _ pos le (omega arith)
          (recv_retry-Reads xs _ _ _ _ f a (omega arith) (omega arith)))

interrupted-Reads :
    (xs : List RecvOutcome) (len sum : ℕ) (arriving buffer : List ℕ) (f fd : Option ℕ)
    → 0 < len
    → Reads ⊥ xs len sum arriving buffer f (recv_retry xs len false true sum arriving buffer fd)
    → Reads ⊥
        (interrupted ∷ xs)
        len
        sum
        arriving
        buffer
        f
        (recv_retry (interrupted ∷ xs) len false true sum arriving buffer fd)
unfolding recv_retry
interrupted-Reads xs len sum arriving buffer f fd p v =
    let e : (len == 0) ≡ false = ground arith in
    rw e (again-Reads ⊥ xs interrupted len sum arriving buffer f _ refl v)

-- The same where the first call may be interrupted, but none has to wait.
pub recv_retry-ready :
    (xs : List RecvOutcome) (len sum : ℕ) (arriving buffer : List ℕ) (fd : Option ℕ)
    → AllGive ⊥ xs
    → 0 < len
    → len ≤ count_gives xs
    → len ≤ length arriving
    → (f : Option ℕ) × Reads ⊥ xs len sum arriving buffer f
        (recv_retry xs len false true sum arriving buffer fd)
recv_retry-ready [] len sum arriving buffer fd a p c h = absurd (omega arith)
recv_retry-ready (gives n f ∷ xs) len sum arriving buffer fd a p c h =
    (f, recv_retry-first ⊥ n f xs len sum arriving buffer fd a.0 a.1 p c h)
recv_retry-ready (again ∷ xs) len sum arriving buffer fd a p c h = absurd a.0
recv_retry-ready (interrupted ∷ xs) len sum arriving buffer fd a p c h =
    let (f, r) = recv_retry-ready xs len sum arriving buffer fd a p c h in
    (f, interrupted-Reads xs len sum arriving buffer f fd p r)
recv_retry-ready (broken ∷ xs) len sum arriving buffer fd a p c h = absurd a
recv_retry-ready (stopped ∷ xs) len sum arriving buffer fd a p c h = absurd a
