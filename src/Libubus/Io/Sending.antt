-- ===== src/Libubus/Io/Sending.antt =====
-- ubus/libubus-io.c: writing a message to the socket.
pub mod Descriptor
pub mod Ending
pub mod Whole
use libubus_jni.Prelude.{
  ℕ, ◌+◌, ◌-◌, Bool, true, false, List, [], ◌∷◌, ◌++◌, Option, none, some, if◌then◌else◌, take,
  drop, length, ltb, leb,
}

-- What a call of `sendmsg` gives: how many bytes the socket takes of those offered, EAGAIN or EINTR,
-- or any other error.
pub data SendOutcome : Type 0 where
  takes : ℕ → SendOutcome
  again : SendOutcome
  broken : SendOutcome

-- What has gone over the socket: bytes, and the descriptors passed with them.
pub record Wire : Type 0 where
  pub bytes : List ℕ
  pub fds : List ℕ

-- The result of a writer: how many bytes, -1, or that it waits still when the list of outcomes ends.
pub data Written : Type 0 where
  whole : ℕ → Written
  failed : Written
  waits : Written

abbrev pub concat : List (List ℕ) → List ℕ
concat [] = []
concat (v ∷ vs) = v ++ concat vs

-- The inner loop of `writev_retry`, and the two lines behind it: what is left of the vector.
unfoldable pub advance : ℕ → List (List ℕ) → List (List ℕ)
advance cur_len [] = []
advance cur_len (v ∷ vs) =
    let rest = advance (cur_len - length v) vs in
    if leb (length v) cur_len then rest else drop cur_len v ∷ vs

abbrev pub fd_list : Option ℕ → List ℕ
fd_list none = []
fd_list (some fd) = fd ∷ []

abbrev pub taken_of : ℕ → List ℕ → ℕ
taken_of n bytes = if ltb n (length bytes) then n else length bytes

-- `writev_retry`, one outcome for each call of `sendmsg`.
unfoldable pub writev_retry :
    List SendOutcome → List (List ℕ) → Option ℕ → ℕ → Wire → Written × Wire
unfolding advance
writev_retry [] iov sock_fd len w = (waits, w)
writev_retry (again ∷ os) iov sock_fd len w = writev_retry os iov sock_fd len w
writev_retry (broken ∷ os) iov sock_fd len w = (failed, w)
writev_retry (takes n ∷ os) iov sock_fd len w =
    let cur_len = taken_of n (concat iov) in
    let w1 : Wire = record {
      bytes = w.bytes ++ take cur_len (concat iov);
      fds = w.fds ++ fd_list sock_fd;
    } in
    let later =
      writev_retry os (advance cur_len iov) (if ltb 0 len then none else sock_fd) (len + cur_len)
        w1 in
    elim (advance cur_len iov) [ [] ↦ (whole (len + cur_len), w1) | ◌∷◌ _ _ ↦ later ]

-- `ubus_send_msg`: what `writev_retry` gives, the wire, whether the socket is marked as ended, and
-- the descriptors that are closed. Without attributes `msg` is the empty blob.
unfoldable pub send_msg :
    List SendOutcome → List ℕ → List ℕ → Option ℕ → Wire → Written × Wire × Bool × List ℕ
send_msg os hdr msg fd w =
    let (r, w1) = writev_retry os (hdr ∷ msg ∷ []) fd 0 w in
    (r, w1, elim r [ failed ↦ true | _ ↦ false ], elim r [ waits ↦ [] | _ ↦ fd_list fd ])
