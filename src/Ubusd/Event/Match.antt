-- ===== src/Ubusd/Event/Match.antt =====
-- When an event name matches a pattern, and `strmatch_len` along sorted patterns.
use libubus_jni.Prelude.{
  ◌≡◌, refl, ◌<◌, ◌≢◌, Bool, false, not, ◌&&◌, ◌||◌, [], ◌∷◌, Ordering, arith, ◌==◌, length,
}
use libubus_jni.Libubox.Text.{CString, strcmp, str_eq, strncmp_eq}
use libubus_jni.Ubusd.State.{EventSource}
use libubus_jni.Ubusd.Event.{strmatch_len}

-- What a subscription to a pattern means: the name is the pattern, or begins with it where the
-- pattern was given with a `*` behind it.
unfoldable pub is_match : CString → CString × EventSource → Bool
unfolding str_eq strncmp_eq
is_match name (key, ev) = str_eq name key || (ev.partial && strncmp_eq key name (length key))

full-strmatch_len : (s t : CString) → (strmatch_len s t).0 ≡ str_eq s t
unfolding strmatch_len str_eq
full-strmatch_len [] [] = refl
full-strmatch_len [] (y ∷ ys) = refl
full-strmatch_len (x ∷ xs) [] = refl
full-strmatch_len (x ∷ xs) (y ∷ ys) = ground (arith, full-strmatch_len xs ys)

len-strmatch_len : (s t : CString) → ((strmatch_len s t).1 == length t) ≡ strncmp_eq t s (length t)
unfolding strmatch_len strncmp_eq
len-strmatch_len [] [] = refl
len-strmatch_len [] (y ∷ ys) = ground arith
len-strmatch_len (x ∷ xs) [] = refl
len-strmatch_len (x ∷ xs) (y ∷ ys) = ground (arith, len-strmatch_len xs ys)

-- The test of the loop in `ubusd_send_event` decides a match.
pub skip-is_match :
    (name key : CString) (ev : EventSource)
    → (not (strmatch_len name key).0
        && (not ev.partial || not ((strmatch_len name key).1 == length key)))
      ≡ not (is_match name (key, ev))
unfolding is_match
skip-is_match name key ev = ground (arith, full-strmatch_len name key, len-strmatch_len name key)

-- Where the common part becomes shorter along the sorted patterns, the pattern lies behind the name.
pub lt_of_shorter :
    (name p q : CString)
    → strcmp p q ≢ Ordering.gt
    → (strmatch_len name q).1 < (strmatch_len name p).1
    → strcmp name q ≡ Ordering.lt
unfolding strmatch_len strcmp
lt_of_shorter [] [] q h k = absurd (omega arith)
lt_of_shorter [] (y ∷ ys) q h k = absurd (omega arith)
lt_of_shorter (x ∷ xs) [] q h k = absurd (omega arith)
lt_of_shorter (x ∷ xs) (y ∷ ys) [] h k = ground arith
lt_of_shorter (x ∷ xs) (y ∷ ys) (z ∷ zs) h k = ground (arith, lt_of_shorter xs ys zs)

not_prefix_of_lt : (s t : CString) → strcmp s t ≡ Ordering.lt → strncmp_eq t s (length t) ≡ false
unfolding strcmp strncmp_eq
not_prefix_of_lt [] [] h = ground arith
not_prefix_of_lt [] (y ∷ ys) h = refl
not_prefix_of_lt (x ∷ xs) [] h = ground arith
not_prefix_of_lt (x ∷ xs) (y ∷ ys) h = ground (arith, not_prefix_of_lt xs ys)

-- No pattern behind the name matches it.
pub not_match_of_lt :
    (name key : CString) (ev : EventSource)
    → strcmp name key ≡ Ordering.lt
    → is_match name (key, ev) ≡ false
unfolding is_match str_eq
not_match_of_lt name key ev h = ground (arith, not_prefix_of_lt name key h)
