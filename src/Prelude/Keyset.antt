-- ===== src/Prelude/Keyset.antt =====
-- Lists sorted by a key that no two elements share: a filter goes through the sort, and the elements
-- past one of them are what follows it.
use huxio.Prelude.{
  ◌≡◌, refl, ap, ◌∙◌, Bool, true, false, ◌||◌, ◌&&◌, List, [], ◌∷◌, ◌++◌, if◌then◌else◌, insert_by,
  sort_by, keep, All, All-imp, All-insert_by, All-sort_by, All-keep, Bool-cases, inl, inr, arith,
}
use huxio.Prelude.Order.{IsStrict}
use huxio.Prelude.Sort.{IsSorted}

module _ {ℓ} {A : Type ℓ} (p : A → Bool) where
  keep_everything : (xs : List A) → All (λ x. p x ≡ true) xs → keep p xs ≡ xs
  keep_everything [] h = refl
  keep_everything (x ∷ xs) h = rw h.0 (ap (λ r. x ∷ r) (keep_everything xs h.1))

  pub keep-keep : (q : A → Bool) (xs : List A) → keep (λ x. q x && p x) xs ≡ keep p (keep q xs)
  keep-keep q [] = refl
  keep-keep q (x ∷ xs) = elim (Bool-cases (q x)) [
    | inl e ↦ rw e (ap (λ r. if p x then x ∷ r else r) (keep-keep q xs))
    | inr e ↦ rw e (keep-keep q xs)
  ]

module _ {ℓ} {A K : Type ℓ} (key : A → K) (lt : K → K → Bool) (o : IsStrict lt) where
  -- b comes after a
  abbrev pub after : A → A → Bool
  after a b = lt (key a) (key b)

  abbrev pub Apart : A → A → Type 0
  Apart a b = (after a b || after b a) ≡ true

  -- No two elements have the same key.
  abbrev pub IsUnique : List A → Type 0
  IsUnique [] = Unit
  IsUnique (x ∷ xs) = All (Apart x) xs × IsUnique xs

  insert_by-IsSorted :
      (x : A) (ys : List A)
      → All (Apart x) ys
      → IsSorted after ys
      → IsSorted after (insert_by after x ys)
  insert_by-IsSorted x [] d s = (tt, tt)
  insert_by-IsSorted x (y ∷ ys) d s = elim (Bool-cases (after x y)) [
    | inl first ↦ rw first (
      (
        first,
        All-imp (λ z. after y z ≡ true) (λ z. after x z ≡ true) ys
            (λ z h. o.trans (key x) (key y) (key z) first h) s.0,
      ),
      s,
    )
    | inr later ↦ rw later (
      All-insert_by (λ z. after y z ≡ true) after x ys (ground (arith, d.0)) s.0,
      insert_by-IsSorted x ys d.1 s.1,
    )
  ]

  pub sort_by-IsSorted : (xs : List A) → IsUnique xs → IsSorted after (sort_by after xs)
  sort_by-IsSorted [] u = tt
  sort_by-IsSorted (x ∷ xs) u =
      insert_by-IsSorted x (sort_by after xs) (All-sort_by (Apart x) after xs u.0)
        (sort_by-IsSorted xs u.1)

  pub keep-IsUnique : (p : A → Bool) (xs : List A) → IsUnique xs → IsUnique (keep p xs)
  keep-IsUnique p [] u = tt
  keep-IsUnique p (x ∷ xs) u = elim (Bool-cases (p x)) [
    | inl e ↦ rw e (
      All-keep (Apart x) p xs (All-imp (Apart x) (λ y. p y ≡ true → Apart x y) xs (λ y a e. a) u.0),
      keep-IsUnique p xs u.1,
    )
    | inr e ↦ rw e (keep-IsUnique p xs u.1)
  ]

  insert_by-first :
      (x : A) (ys : List A) → All (λ y. after x y ≡ true) ys → insert_by after x ys ≡ x ∷ ys
  insert_by-first x [] h = refl
  insert_by-first x (y ∷ ys) h = rw h.0 refl

  keep-insert_by :
      (p : A → Bool) (x : A) (ys : List A)
      → IsSorted after ys
      → keep p (insert_by after x ys) ≡ (if p x then insert_by after x (keep p ys) else keep p ys)
  keep-insert_by p x [] s = refl
  keep-insert_by p x (y ∷ ys) s = elim (Bool-cases (after x y)) [
    | inl first ↦
        let least : All (λ z. after x z ≡ true) (y ∷ ys) = (
          first,
          All-imp (λ z. after y z ≡ true) (λ z. after x z ≡ true) ys
              (λ z h. o.trans (key x) (key y) (key z) first h) s.0,
        ) in
        rw
          (
            first,
            insert_by-first x (keep p (y ∷ ys)) (
                All-keep (λ z. after x z ≡ true) p (y ∷ ys)
                  (All-imp (λ z. after x z ≡ true) (λ z. p z ≡ true → after x z ≡ true) (y ∷ ys)
                    (λ z a e. a) least)),
          )
          refl
    | inr later ↦ ground (arith, later, keep-insert_by p x ys s.1)
  ]

  -- WHERE before or after ORDER BY: the same rows.
  pub keep-sort_by :
      (p : A → Bool) (xs : List A)
      → IsUnique xs
      → keep p (sort_by after xs) ≡ sort_by after (keep p xs)
  keep-sort_by p [] u = refl
  keep-sort_by p (x ∷ xs) u =
      keep-insert_by p x (sort_by after xs) (sort_by-IsSorted xs u.1)
      ∙ ap (λ r. if p x then insert_by after x r else r) (keep-sort_by p xs u.1)
      ∙ elim (Bool-cases (p x)) [ inl e ↦ rw e refl | inr e ↦ rw e refl ]

  after-asym : (a x : A) → after a x ≡ true → after x a ≡ false
  after-asym a x h = elim (Bool-cases (after x a)) [
    | inl e ↦ absurd (ground (arith, h, e, o.trans (key a) (key x) (key a) h e, o.irrefl (key a)))
    | inr e ↦ e
  ]

  pub All-middle : (P : A → Type 0) (xs : List A) (x : A) (ys : List A) → All P (xs ++ x ∷ ys) → P x
  All-middle P [] x ys h = h.0
  All-middle P (a ∷ xs) x ys h = All-middle P xs x ys h.1

  -- What is past an element of a sorted list follows it.
  pub keep-past :
      (xs : List A) (x : A) (ys : List A)
      → IsSorted after (xs ++ x ∷ ys)
      → keep (after x) (xs ++ x ∷ ys) ≡ ys
  keep-past [] x ys s = rw (o.irrefl (key x)) (keep_everything (after x) ys s.0)
  keep-past (a ∷ xs) x ys s =
      rw (after-asym a x (All-middle (λ y. after a y ≡ true) xs x ys s.0)) (keep-past xs x ys s.1)
