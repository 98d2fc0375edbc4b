-- ===== src/Ubusd/Event/Delivery.antt =====
-- Which objects an event reaches.
use mathlib.Core.Path.{fun_ext}
use libubus_jni.Prelude.{
  ℕ, ◌≡◌, refl, ◌≢◌, List, [], ◌∷◌, Option, some, Ordering, arith, filter, ◌>>=◌, Bool-cases, ltb,
  ltb→lt, inl, inr, ◌+◌, ◌%◌,
}
use libubus_jni.Libubox.Text.{CString, strcmp, strcmp-lt_trans}
use libubus_jni.Libubox.Tree.{string_ord}
use libubus_jni.Libubox.Tree.Sorted.{SortedFrom, Sorted}
use libubus_jni.Ubusd.State.{EventSource, Daemon}
use libubus_jni.Ubusd.Event.{strmatch_len, Fill, send_event_msg, send_event_loop, send_event}
use libubus_jni.Ubusd.Message.{u32_mod}
use libubus_jni.Ubusd.Event.Match.{is_match, skip-is_match, lt_of_shorter, not_match_of_lt}

-- `ubusd_send_event_msg` for each source, in order.
unfoldable pub deliver : Option ℕ → Fill → List (CString × EventSource) → Daemon → Option Daemon
deliver cl fill [] d = some d
deliver cl fill ((key, ev) ∷ t) d = send_event_msg cl ev.obj fill d >>= deliver cl fill t

none_match :
    (name p : CString) (t : List (CString × EventSource))
    → strcmp name p ≡ Ordering.lt
    → SortedFrom p t
    → filter (is_match name) t ≡ []
none_match name p [] h s = refl
none_match name p ((key, ev) ∷ t) h s =
    let h' = strcmp-lt_trans name p key h s.0 in
    ground (arith, not_match_of_lt name key ev h', none_match name key t h' s.1)

loop-deliver :
    (cl : Option ℕ) (name : CString) (fill : Fill) (p : CString) (t : List (CString × EventSource))
    (d : Daemon)
    → SortedFrom p t
    → send_event_loop cl name fill (strmatch_len name p).1 t d
      ≡ deliver cl fill (filter (is_match name) t) d
unfolding send_event_loop deliver
loop-deliver cl name fill p [] d s = refl
loop-deliver cl name fill p ((key, ev) ∷ t) d s =
    let tail = fun_ext λ (x : Daemon). loop-deliver cl name fill key t x s.1 in
    elim (Bool-cases (ltb (strmatch_len name key).1 (strmatch_len name p).1)) [
      | inl shorter ↦
          let behind = lt_of_shorter name p key s.0 (ltb→lt _ _ shorter) in
          ground
            (arith, shorter, not_match_of_lt name key ev behind, none_match name key t behind s.1)
      | inr longer ↦
          rw (longer, skip-is_match name key ev)
            (elim (Bool-cases (is_match name (key, ev))) [
              | inl hit ↦ rw (hit, tail)
              | inr miss ↦ rw (miss, loop-deliver cl name fill key t d s.1)
            ])
    ]

strcmp-nil-ne_gt : (s : CString) → strcmp [] s ≢ Ordering.gt
unfolding strcmp
strcmp-nil-ne_gt [] = ground arith
strcmp-nil-ne_gt (x ∷ xs) = ground arith

SortedFrom-nil : (t : List (CString × EventSource)) → Sorted t → SortedFrom [] t
SortedFrom-nil [] s = tt
SortedFrom-nil ((key, ev) ∷ t) s = (strcmp-nil-ne_gt key, s)

-- While the patterns are sorted, `ubusd_send_event`, which stops at the first pattern that has
-- less in common with the name than the one before, hands the event to every source whose pattern
-- matches the name, in the order of the patterns, and to no other.
pub send_event-deliver :
    (cl : Option ℕ) (name : CString) (fill : Fill) (d : Daemon)
    → Sorted d.patterns
    → send_event cl name fill d
      ≡ deliver cl fill
          (filter (is_match name) d.patterns)
          (record d { obj_event_seq = (d.obj_event_seq + 1) % u32_mod })
unfolding send_event strmatch_len
send_event-deliver cl name fill d s = start name
  where
    start :
        (n : CString)
        → send_event_loop cl n fill 0 d.patterns
            (record d { obj_event_seq = (d.obj_event_seq + 1) % u32_mod })
          ≡ deliver cl fill
              (filter (is_match n) d.patterns)
              (record d { obj_event_seq = (d.obj_event_seq + 1) % u32_mod })
    start [] = loop-deliver cl [] fill [] d.patterns _ (SortedFrom-nil d.patterns s)
    start (x ∷ xs) = loop-deliver cl (x ∷ xs) fill [] d.patterns _ (SortedFrom-nil d.patterns s)
