-- ===== src/Wrapper/Types/Packed.antt =====
-- Entries that stand one behind the other in a block of memory, each with its place.
use libubus_jni.Prelude.{
  ℕ, ◌+◌, ◌≡◌, ◌<◌, ◌≤◌, arith, List, [], ◌∷◌, ◌++◌, Option, none, some, if◌then◌else◌, ◌==◌,
}

module _ {ℓ} {A : Type ℓ} where
  -- The entry at a place.
  unfoldable pub at : ℕ → List (ℕ × A) → Option A
  at k [] = none
  at k ((j, v) ∷ l) = if j == k then some v else at k l

  pub at-append : (k : ℕ) (l l' : List (ℕ × A)) (v : A) → at k l ≡ some v → at k (l ++ l') ≡ some v
  unfolding at
  at-append k [] l' v h = ground arith
  at-append k ((j, w) ∷ l) l' v h = ground (arith, at-append k l l' v)

-- The entries fill the places from one to another, with no gap and no overlap.
abbrev pub Packed {ℓ} : {A : Type ℓ} → (A → ℕ) → ℕ → List (ℕ × A) → ℕ → Type 0
Packed size a [] b = a ≡ b
Packed size a ((k, v) ∷ l) b = (k ≡ a) × Packed size (a + size v) l b

module _ {ℓ} {A : Type ℓ} (size : A → ℕ) where
  pub Packed-append :
      (a b : ℕ) (l : List (ℕ × A)) (v : A)
      → Packed size a l b
      → Packed size a (l ++ ((b, v) ∷ [])) (b + size v)
  Packed-append a b [] v p = (omega arith, omega arith)
  Packed-append a b ((k, w) ∷ l) v p = (p.0, Packed-append (a + size w) b l v p.1)

  pub Packed-le : (a b : ℕ) (l : List (ℕ × A)) → Packed size a l b → a ≤ b
  Packed-le a b [] p = omega arith
  Packed-le a b ((k, w) ∷ l) p = omega (arith, Packed-le (a + size w) b l p.1)

  -- A new entry is found at its place.
  pub at-append_new :
      (a b : ℕ) (l : List (ℕ × A)) (v : A)
      → ((w : A) → 0 < size w)
      → Packed size a l b
      → at b (l ++ ((b, v) ∷ [])) ≡ some v
  unfolding at
  at-append_new a b [] v pos p = ground arith
  at-append_new a b ((k, w) ∷ l) v pos p =
      ground
        (arith, pos w, Packed-le (a + size w) b l p.1, at-append_new (a + size w) b l v pos p.1)
