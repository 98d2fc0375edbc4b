-- ===== src/Libubox/Text.antt =====
-- C strings as the lists of their bytes before the terminating zero, and the calls of `strcmp`,
-- `strncmp` and `strlen` on them (`strcmp` is what avl_strcmp of libubox/avl-cmp.c calls).
use Prim.Native.Char.{code}
use Prim.Native.String.{String}
use libubus_jni.Prelude.{
  ℕ, zero, suc, ◌≡◌, ◌≢◌, refl, Bool, true, false, ◌&&◌, List, [], ◌∷◌, compare, Ordering, arith,
  ◌==◌, length, ◌^◌, ◌-◌,
}

abbrev pub CString : Type 0
CString = List ℕ

-- The sign of `strcmp`.
unfoldable pub strcmp : CString → CString → Ordering
strcmp [] [] = Ordering.eq
strcmp [] (y ∷ ys) = Ordering.lt
strcmp (x ∷ xs) [] = Ordering.gt
strcmp (x ∷ xs) (y ∷ ys) = elim (compare x y) [
  | Ordering.eq ↦ strcmp xs ys
  | Ordering.lt ↦ Ordering.lt
  | Ordering.gt ↦ Ordering.gt
]

-- `!strcmp(s, t)`
unfoldable pub str_eq : CString → CString → Bool
unfolding strcmp
str_eq s t = elim (strcmp s t) [ Ordering.eq ↦ true | _ ↦ false ]

-- `!strncmp(s, t, n)`
unfoldable pub strncmp_eq : CString → CString → ℕ → Bool
strncmp_eq s t zero = true
strncmp_eq [] [] (suc n) = true
strncmp_eq [] (y ∷ ys) (suc n) = false
strncmp_eq (x ∷ xs) [] (suc n) = false
strncmp_eq (x ∷ xs) (y ∷ ys) (suc n) = x == y && strncmp_eq xs ys n

-- `s[len - 1]` with `len = strlen(s)`. For the empty string this is the byte in front of it.
unfoldable pub last_or : ℕ → CString → ℕ
last_or before [] = before
last_or before (x ∷ xs) = last_or x xs

-- The string after `s[len - 1] = 0`; on the empty string the write goes to the byte in front.
unfoldable pub cut_last : CString → CString
cut_last [] = []
cut_last (x ∷ []) = []
cut_last (x ∷ y ∷ ys) = x ∷ cut_last (y ∷ ys)

-- The value of `len` behind that write, as `strncmp` takes it: from -1 it is the largest `size_t`.
unfoldable pub cut_length : CString → ℕ
cut_length [] = 2 ^ 64 - 1
cut_length (x ∷ xs) = length xs

pub strcmp_refl : (s : CString) → strcmp s s ≡ Ordering.eq
unfolding strcmp
strcmp_refl [] = refl
strcmp_refl (x ∷ xs) = ground (arith, strcmp_refl xs)

pub eq_of_strcmp : (s t : CString) → strcmp s t ≡ Ordering.eq → s ≡ t
unfolding strcmp
eq_of_strcmp [] [] h = refl
eq_of_strcmp [] (y ∷ ys) h = ground arith
eq_of_strcmp (x ∷ xs) [] h = ground arith
eq_of_strcmp (x ∷ xs) (y ∷ ys) h = ground (arith, eq_of_strcmp xs ys)

-- The bytes of an ASCII literal.
abbrev pub codes : String → CString
codes String.[] = []
codes (String.◌∷◌ c s) = code c ∷ codes s

pub strcmp-lt_of_gt : (s t : CString) → strcmp s t ≡ Ordering.gt → strcmp t s ≡ Ordering.lt
unfolding strcmp
strcmp-lt_of_gt [] [] h = ground arith
strcmp-lt_of_gt [] (y ∷ ys) h = ground arith
strcmp-lt_of_gt (x ∷ xs) [] h = refl
strcmp-lt_of_gt (x ∷ xs) (y ∷ ys) h = ground (arith, strcmp-lt_of_gt xs ys)

pub strcmp-lt_trans :
    (r s t : CString)
    → strcmp r s ≡ Ordering.lt
    → strcmp s t ≢ Ordering.gt
    → strcmp r t ≡ Ordering.lt
unfolding strcmp
strcmp-lt_trans [] [] t h k = ground arith
strcmp-lt_trans [] (y ∷ ys) [] h k = ground arith
strcmp-lt_trans [] (y ∷ ys) (z ∷ zs) h k = refl
strcmp-lt_trans (x ∷ xs) [] t h k = ground arith
strcmp-lt_trans (x ∷ xs) (y ∷ ys) [] h k = ground arith
strcmp-lt_trans (x ∷ xs) (y ∷ ys) (z ∷ zs) h k = ground (arith, strcmp-lt_trans xs ys zs)
