-- ===== src/Ubusd/Txq/Stream.antt =====
-- What a client reads from its socket: the messages sent to it, whole and in order.
use mathlib.Core.List.{append_assoc, append-nil}
use libubus_jni.Prelude.{
  ℕ, ◌-◌, ◌≡◌, refl, ◌<◌, List, [], ◌∷◌, ◌++◌, ap, ◌∙◌, sym, arith, length, drop, ltb,
  length-append, drop-append_le, drop-append_ge, Bool-cases, inl, inr,
}
use libubus_jni.Ubusd.Txq.{Packet, Conn, offered, put_last, backlog, hdr_size}
use libubus_jni.Ubusd.Txq.Queue.{Holds, put_last-Holds}

abbrev pub bytes : Packet → List ℕ
bytes p = p.hdr ++ p.payload

abbrev pub all_bytes : List Packet → List ℕ
all_bytes [] = []
all_bytes (p ∷ q) = bytes p ++ all_bytes q

-- What is still to be sent, when of the first message `ofs` bytes are gone.
abbrev pub pending : List Packet → ℕ → List ℕ
pending [] ofs = []
pending (p ∷ q) ofs = drop ofs (bytes p) ++ all_bytes q

abbrev pub Sized : List Packet → Type 0
Sized [] = Unit
Sized (p ∷ q) = (length p.hdr ≡ hdr_size) × Sized q

abbrev pub Partly : List Packet → ℕ → Type 0
Partly [] ofs = Unit
Partly (p ∷ q) ofs = ofs < length (bytes p)

-- The ring holds the queue, the first message is not sent whole, and the bytes that the socket has
-- taken together with those that are still to be sent are the given ones.
pub record Carries (q : List Packet) (c : Conn) (s : List ℕ) : Type 0 where
  pub holds : Holds c q
  pub sized : Sized q
  pub partly : Partly q c.txq_ofs
  pub stream : c.wire ++ pending q c.txq_ofs ≡ s

pub pending-zero : (q : List Packet) → pending q 0 ≡ all_bytes q
pending-zero [] = refl
pending-zero (p ∷ q) = refl

all_bytes-append :
    (q : List Packet) (p : Packet) → all_bytes (q ++ (p ∷ [])) ≡ all_bytes q ++ bytes p
all_bytes-append [] p = append-nil (bytes p)
all_bytes-append (x ∷ q) p =
    ap (◌++◌ (bytes x)) (all_bytes-append q p)
    ∙ sym (append_assoc (bytes x) (all_bytes q) (bytes p))

pending-append :
    (x : Packet) (q : List Packet) (p : Packet) (ofs : ℕ)
    → pending ((x ∷ q) ++ (p ∷ [])) ofs ≡ pending (x ∷ q) ofs ++ bytes p
pending-append x q p ofs =
    ap (◌++◌ (drop ofs (bytes x))) (all_bytes-append q p)
    ∙ sym (append_assoc (drop ofs (bytes x)) (all_bytes q) (bytes p))

Sized-append :
    (q : List Packet) (p : Packet) → Sized q → length p.hdr ≡ hdr_size → Sized (q ++ (p ∷ []))
Sized-append [] p s h = (h, tt)
Sized-append (x ∷ q) p s h = (s.0, Sized-append q p s.1 h)

pub Sized-Partly : (q : List Packet) → Sized q → Partly q 0
Sized-Partly [] s = tt
Sized-Partly (p ∷ q) s = omega (arith, s.0, length-append p.hdr p.payload)

-- The two buffers of `ubus_msg_writev` are the message from the offset on.
pub offered-drop :
    (p : Packet) (ofs : ℕ) → length p.hdr ≡ hdr_size → offered p ofs ≡ drop ofs (bytes p)
unfolding offered
offered-drop p ofs h = elim (Bool-cases (ltb ofs hdr_size)) [
  | inl lt ↦ rw lt (sym (drop-append_le ofs p.hdr p.payload (ground arith)))
  | inr ge ↦ rw ge (
      ap (λ k. drop (ofs - k) p.payload) (sym h)
      ∙ sym (drop-append_ge ofs p.hdr p.payload (ground arith)))
]

pub wire-put_last :
    (ub : Packet) (c : Conn)
    → ((put_last ub c).wire ≡ c.wire) × ((put_last ub c).txq_ofs ≡ c.txq_ofs)
unfolding put_last
wire-put_last ub c = ground arith

-- A message behind others goes to the end of the stream.
pub put_last-Carries :
    (ub : Packet) (x : Packet) (q : List Packet) {c : Conn} {s : List ℕ}
    → length ub.hdr ≡ hdr_size
    → length (x ∷ q) < backlog
    → Carries (x ∷ q) c s
    → Carries ((x ∷ q) ++ (ub ∷ [])) (put_last ub c) (s ++ bytes ub)
put_last-Carries ub x q {c} {s} hs l v =
    let (w, o) = wire-put_last ub c in
    record {
      holds = put_last-Holds v.holds ub l;
      sized = Sized-append (x ∷ q) ub v.sized hs;
      partly = rw o v.partly;
      stream =
          rw (w, o)
            (ap (◌++◌ c.wire) (pending-append x q ub c.txq_ofs)
              ∙ sym (append_assoc c.wire (pending (x ∷ q) c.txq_ofs) (bytes ub))
              ∙ ap (λ t. t ++ bytes ub) v.stream);
    }
