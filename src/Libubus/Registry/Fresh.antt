-- ===== src/Libubus/Registry/Fresh.antt =====
-- New ids for the objects of a client: which objects and ids are apart (ubus/libubus-io.c).
use libubus_jni.Prelude.{
  ℕ, ◌≡◌, ◌≢◌, refl, ◌∙◌, arith, true, false, List, [], ◌∷◌, none, some, Option-cases, inl, inr,
}
use libubus_jni.Libubox.Tree.{find, insert, place, id_ord}
use libubus_jni.Libubox.Tree.Find.{find-place_ne}
use libubus_jni.Libubus.Object.{Object, Host, object}
use libubus_jni.Libubus.Registry.{Reply, Answer, is_in, insert_into}
use libubus_jni.Libubus.Registry.Roundtrip.{FitsType}

-- One answer with one message for each object, that gives the id.
abbrev pub answers : List (ℕ × Reply) → List Answer
answers [] = []
answers ((id, r) ∷ rs) = record { started = true; replies = r ∷ []; ret = 0 } ∷ answers rs

-- These ids are new for the objects of the list, each in memory, with a type only where there is one.
abbrev pub Fits : List (ℕ × ℕ) → List (ℕ × Reply) → Host → Type 0
Fits [] [] h = Unit
Fits [] (x ∷ rs) h = ⊥
Fits (x ∷ t) [] h = ⊥
Fits ((k, a) ∷ t) ((id, r) ∷ rs) h =
    ((o : Object) × (object a h ≡ some o) × FitsType r o) × (r.objid ≡ some id) × Fits t rs h

-- No object stands on the list twice, and no id.
abbrev pub Apart : List (ℕ × ℕ) → Type 0
Apart [] = Unit
Apart ((k, a) ∷ t) = (is_in a t ≡ false) × Apart t

abbrev pub Avoids : ℕ → List (ℕ × Reply) → Type 0
Avoids id [] = Unit
Avoids id ((j, r) ∷ rs) = (j ≢ id) × Avoids id rs

abbrev pub Differ : List (ℕ × Reply) → Type 0
Differ [] = Unit
Differ ((id, r) ∷ rs) = Avoids id rs × Differ rs

-- The objects are not in this tree, nor are the ids.
abbrev pub Outside : List (ℕ × ℕ) → List (ℕ × ℕ) → Type 0
Outside [] u = Unit
Outside ((k, a) ∷ t) u = (is_in a u ≡ false) × Outside t u

abbrev pub Unused : List (ℕ × Reply) → List (ℕ × ℕ) → Type 0
Unused [] u = Unit
Unused ((id, r) ∷ rs) u = (find id u ≡ none) × Unused rs u

-- Every object is filed under its new id.
abbrev pub Filed : List (ℕ × ℕ) → List (ℕ × Reply) → List (ℕ × ℕ) → Type 0
Filed [] [] u = Unit
Filed [] (x ∷ rs) u = ⊥
Filed (x ∷ t) [] u = ⊥
Filed ((k, a) ∷ t) ((id, r) ∷ rs) u = (find id u ≡ some a) × Filed t rs u

pub Fits-same :
    (t : List (ℕ × ℕ)) (rs : List (ℕ × Reply)) (a : ℕ) (h h1 : Host)
    → is_in a t ≡ false
    → ((b : ℕ) → b ≢ a → object b h1 ≡ object b h)
    → Fits t rs h
    → Fits t rs h1
Fits-same [] [] a h h1 n s f = tt
Fits-same [] (x ∷ rs) a h h1 n s f = f
Fits-same (x ∷ t) [] a h h1 n s f = f
Fits-same ((k, b) ∷ t) ((id, r) ∷ rs) a h h1 n s f =
    let ne : b ≢ a = ground arith in
    let n1 : is_in a t ≡ false = ground arith in
    ((f.0.0, s b ne ∙ f.0.1, f.0.2), f.1, Fits-same t rs a h h1 n1 s f.2)

pub is_in-place :
    (b id a : ℕ) (u : List (ℕ × ℕ)) → b ≢ a → is_in b u ≡ false → is_in b (place id a u) ≡ false
unfolding place
is_in-place b id a [] ne n = ground arith
is_in-place b id a ((k, c) ∷ u) ne n = ground (arith, is_in-place b id a u ne)

pub is_in-insert_into :
    (b id a : ℕ) (u : List (ℕ × ℕ))
    → b ≢ a
    → is_in b u ≡ false
    → is_in b (insert_into id a u) ≡ false
unfolding insert_into insert
is_in-insert_into b id a u ne n = elim (Option-cases (find id u)) [
  | inl e ↦ rw (insert_into, insert, e) (is_in-place b id a u ne n)
  | inr (c, e) ↦ rw (insert_into, insert, e) n
]

pub Outside-insert_into :
    (t : List (ℕ × ℕ)) (id a : ℕ) (u : List (ℕ × ℕ))
    → is_in a t ≡ false
    → Outside t u
    → Outside t (insert_into id a u)
Outside-insert_into [] id a u n o = tt
Outside-insert_into ((k, b) ∷ t) id a u n o =
    let ne : b ≢ a = ground arith in
    let n1 : is_in a t ≡ false = ground arith in
    (is_in-insert_into b id a u ne o.0, Outside-insert_into t id a u n1 o.1)

pub find-insert_into_ne :
    (id a j : ℕ) (u : List (ℕ × ℕ)) → j ≢ id → find j (insert_into id a u) ≡ find j u
unfolding insert_into insert
find-insert_into_ne id a j u ne = elim (Option-cases (find id u)) [
  | inl e ↦ rw (insert_into, insert, e) (find-place_ne id j a u ne)
  | inr (b, e) ↦ rw (insert_into, insert, e) refl
]

pub Unused-insert_into :
    (rs : List (ℕ × Reply)) (id a : ℕ) (u : List (ℕ × ℕ))
    → Avoids id rs
    → Unused rs u
    → Unused rs (insert_into id a u)
Unused-insert_into [] id a u v n = tt
Unused-insert_into ((j, r) ∷ rs) id a u v n =
    (find-insert_into_ne id a j u v.0 ∙ n.0, Unused-insert_into rs id a u v.1 n.1)
