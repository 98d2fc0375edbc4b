-- ===== src/Ubusd/Txq/Queue.antt =====
-- The transmit ring holds a queue of at most UBUSD_CLIENT_BACKLOG messages.
use libubus_jni.Prelude.{
  ℕ, Bool, zero, suc, ◌+◌, ◌%◌, ◌≡◌, refl, ◌≢◌, ◌<◌, ◌≤◌, List, [], ◌∷◌, ◌++◌, none, some, ap, ◌∙◌,
  arith, length, get_or, set, replicate, get_elem?, get_elem?-past, get_elem?-append_end,
  get_elem?-append_ne, length-append, length-set, get_or-set_self, get_or-set_ne,
}
use native.Mathlib.Decide.{ℕ_discrete}
use libubus_jni.Ubusd.Txq.{Packet, Conn, slot, put_last, dequeue, backlog, new_conn}

-- The ring of the connection holds the messages of the queue, oldest first, and nothing else.
pub record Holds (c : Conn) (q : List Packet) : Type 0 where
  pub size : length c.tx_queue ≡ backlog
  pub few : length q ≤ backlog
  pub cur_in : c.txq_cur < backlog
  pub tail_at : c.txq_tail ≡ (c.txq_cur + length q) % backlog
  pub at : (i : ℕ) → i < backlog → slot c ((c.txq_cur + i) % backlog) ≡ get_elem? q i

module _ {c : Conn} {q : List Packet} (h : Holds c q) where
  -- The slot that `txq_cur` names holds the oldest message.
  pub head_slot : slot c c.txq_cur ≡ get_elem? q 0
  head_slot = ap (slot c) (omega (arith, h.cur_in)) ∙ h.at 0 (omega arith)

  pub tail_free : length q < backlog → slot c c.txq_tail ≡ none
  tail_free l =
      ap (slot c) h.tail_at ∙ h.at (length q) l ∙ get_elem?-past q (length q) (omega arith)

  pub tail_taken : length q ≡ backlog → (p : Packet) × (slot c c.txq_tail ≡ some p)
  tail_taken l = read q (ap (slot c) (h.tail_at ∙ omega (arith, h.cur_in)) ∙ head_slot) l
    where
      read :
          (q' : List Packet)
          → slot c c.txq_tail ≡ get_elem? q' 0
          → length q' ≡ backlog
          → (p : Packet) × (slot c c.txq_tail ≡ some p)
      read [] e m = absurd (omega arith)
      read (p ∷ q') e m = (p, e)

  -- A message that finds room goes to the end of the queue.
  pub put_last-Holds : (ub : Packet) → length q < backlog → Holds (put_last ub c) (q ++ (ub ∷ []))
  unfolding put_last
  put_last-Holds ub l =
      rw (tail_free l, put_last)
        (record {
          size = length-set c.tx_queue c.txq_tail (some ub) ∙ h.size;
          few = omega (arith, length-append q (ub ∷ []));
          cur_in = h.cur_in;
          tail_at = omega (arith, length-append q (ub ∷ []), h.tail_at);
          at = λ i lt. elim (ℕ_discrete i (length q)) [
            | yes e ↦ new_slot i e
            | no ne ↦ old_slot i lt ne
          ];
        })
    where
      new_slot :
          (i : ℕ)
          → i ≡ length q
          → get_or (set c.tx_queue c.txq_tail (some ub)) ((c.txq_cur + i) % backlog) none
            ≡ get_elem? (q ++ (ub ∷ [])) i
      new_slot i e =
          rw (e, ← h.tail_at, get_elem?-append_end q ub)
            (get_or-set_self c.tx_queue c.txq_tail (some ub) none
              (omega (arith, h.size, h.tail_at)))

      old_slot :
          (i : ℕ)
          → i < backlog
          → i ≢ length q
          → get_or (set c.tx_queue c.txq_tail (some ub)) ((c.txq_cur + i) % backlog) none
            ≡ get_elem? (q ++ (ub ∷ [])) i
      old_slot i lt ne =
          rw (get_elem?-append_ne q ub i ne) (
            get_or-set_ne c.tx_queue (some ub) none (omega (arith, h.tail_at, h.cur_in))
            ∙ h.at i lt)

  -- A full queue drops it.
  pub put_last_full : (ub : Packet) → length q ≡ backlog → put_last ub c ≡ c
  unfolding put_last
  put_last_full ub l = let (p, e) = tail_taken l in rw (e, put_last)

-- The oldest message leaves.
pub dequeue-Holds :
    {c : Conn} (p : Packet) (q : List Packet) → Holds c (p ∷ q) → Holds (dequeue c) q
unfolding dequeue
dequeue-Holds {c} p q h =
    rw (head_slot h, dequeue)
      (record {
        size = length-set c.tx_queue c.txq_cur none ∙ h.size;
        few = omega (arith, h.few);
        cur_in = omega arith;
        tail_at = omega (arith, h.tail_at);
        at = λ i lt. elim (ℕ_discrete i 31) [ yes e ↦ freed_slot i e | no ne ↦ kept_slot i lt ne ];
      })
  where
    freed_slot :
        (i : ℕ)
        → i ≡ 31
        → get_or (set c.tx_queue c.txq_cur none) (((c.txq_cur + 1) % backlog + i) % backlog) none
          ≡ get_elem? q i
    freed_slot i e =
        let same : ((c.txq_cur + 1) % backlog + i) % backlog ≡ c.txq_cur =
          omega (arith, h.cur_in) in
        rw (same, get_elem?-past q i (omega (arith, h.few)))
          (get_or-set_self c.tx_queue c.txq_cur none none (omega (arith, h.size, h.cur_in)))

    kept_slot :
        (i : ℕ)
        → i < backlog
        → i ≢ 31
        → get_or (set c.tx_queue c.txq_cur none) (((c.txq_cur + 1) % backlog + i) % backlog) none
          ≡ get_elem? q i
    kept_slot i lt ne =
        let same : ((c.txq_cur + 1) % backlog + i) % backlog ≡ (c.txq_cur + suc i) % backlog =
          omega arith in
        rw same (
          get_or-set_ne c.tx_queue none none (omega (arith, h.cur_in)) ∙ h.at (suc i) (omega arith))

get_or-replicate {ℓ} : {A : Type ℓ} (n i : ℕ) (a : A) → get_or (replicate n a) i a ≡ a
get_or-replicate zero i a = refl
get_or-replicate (suc n) zero a = refl
get_or-replicate (suc n) (suc i) a = get_or-replicate n i a

pub new_conn-Holds : Holds new_conn []
unfolding new_conn
new_conn-Holds = record {
  size = refl;
  few = omega arith;
  cur_in = omega arith;
  tail_at = refl;
  at = λ i lt. get_or-replicate backlog ((0 + i) % backlog) none;
}

-- The ring is no matter of the other fields.
pub Holds-fields :
    {c : Conn} {q : List Packet} (wire : List ℕ) (ofs : ℕ) (watch : Bool)
    → Holds c q
    → Holds (record c { txq_ofs = ofs; watch_write = watch; wire = wire }) q
Holds-fields wire ofs watch h = record {
  size = h.size;
  few = h.few;
  cur_in = h.cur_in;
  tail_at = h.tail_at;
  at = h.at;
}
