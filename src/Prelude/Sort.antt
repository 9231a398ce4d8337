-- ===== src/Prelude/Sort.antt =====
-- The laws of ORDER BY: the result is in order, and has the elements that were there.
use mathlib.Core.List.{Perm}
use mathlib.Core.List.Perm
use huxio.Prelude.{
  ℕ, zero, suc, ◌≡◌, refl, Bool, true, false, List, [], ◌∷◌, if◌then◌else◌, insert_by, sort_by,
  keep, take, drop, All, All-imp, All-insert_by, All-drop, Bool-cases, inl, inr, length, arith,
}

module _ {ℓ} {A : Type ℓ} (before : A → A → Bool) where
  insert_by-perm : (x : A) (ys : List A) → Perm (insert_by before x ys) (x ∷ ys)
  insert_by-perm x [] = Perm.refl (x ∷ [])
  insert_by-perm x (y ∷ ys) = cases (before x y) (insert_by-perm x ys)
    where
      cases :
          (b : Bool)
          → Perm (insert_by before x ys) (x ∷ ys)
          → Perm (if b then x ∷ y ∷ ys else y ∷ insert_by before x ys) (x ∷ y ∷ ys)
      cases true p = Perm.refl (x ∷ y ∷ ys)
      cases false p = Perm.trans (Perm.cons y p) (Perm.swap x y ys)

  pub sort_by-perm : (xs : List A) → Perm (sort_by before xs) xs
  sort_by-perm [] = Perm.refl []
  sort_by-perm (x ∷ xs) =
      Perm.trans (insert_by-perm x (sort_by before xs)) (Perm.cons x (sort_by-perm xs))

-- In order: each element comes before each later one.
abbrev pub IsSorted {ℓ} : {A : Type ℓ} → (A → A → Bool) → List A → Type 0
IsSorted before [] = Unit
IsSorted before (x ∷ xs) = All (λ y. before x y ≡ true) xs × IsSorted before xs

module _ {ℓ} {A : Type ℓ} (before : A → A → Bool)
    (trans : (a b c : A) → before a b ≡ true → before b c ≡ true → before a c ≡ true)
    (total : (a b : A) → before a b ≡ false → before b a ≡ true) where
  insert_by-IsSorted :
      (x : A) (ys : List A) → IsSorted before ys → IsSorted before (insert_by before x ys)
  insert_by-IsSorted x [] o = (tt, tt)
  insert_by-IsSorted x (y ∷ ys) o = elim (Bool-cases (before x y)) [
    | inl first ↦ rw first (
      (
        first,
        All-imp (λ z. before y z ≡ true) (λ z. before x z ≡ true) ys (λ z h. trans x y z first h)
            o.0,
      ),
      o,
    )
    | inr later ↦ rw later (
      All-insert_by (λ z. before y z ≡ true) before x ys (total x y later) o.0,
      insert_by-IsSorted x ys o.1,
    )
  ]

  pub sort_by-IsSorted : (xs : List A) → IsSorted before (sort_by before xs)
  sort_by-IsSorted [] = tt
  sort_by-IsSorted (x ∷ xs) = insert_by-IsSorted x (sort_by before xs) (sort_by-IsSorted xs)

module _ {ℓ} {A : Type ℓ} (before : A → A → Bool) where
  pub take-before-drop :
      (n : ℕ) (xs : List A)
      → IsSorted before xs
      → All (λ a. All (λ b. before a b ≡ true) (drop n xs)) (take n xs)
  take-before-drop zero xs o = tt
  take-before-drop (suc n) [] o = tt
  take-before-drop (suc n) (x ∷ xs) o =
      (All-drop (λ b. before x b ≡ true) n xs o.0, take-before-drop n xs o.1)

  length-keep-insert_by :
      (p : A → Bool) (x : A) (ys : List A)
      → length (keep p (insert_by before x ys)) ≡ length (keep p (x ∷ ys))
  length-keep-insert_by p x [] = refl
  length-keep-insert_by p x (y ∷ ys) = ground (arith, length-keep-insert_by p x ys)

  pub length-keep-sort_by :
      (p : A → Bool) (xs : List A) → length (keep p (sort_by before xs)) ≡ length (keep p xs)
  length-keep-sort_by p [] = refl
  length-keep-sort_by p (x ∷ xs) =
      ground (arith, length-keep-insert_by p x (sort_by before xs), length-keep-sort_by p xs)
