-- ===== src/Store/EventTypes/Names.antt =====
-- Which names the table has, and that it has each once.
use huxio.Prelude.{
  ◌≡◌, refl, ◌∙◌, Bool, true, false, List, [], ◌∷◌, String, eq_iff, any, is_set, if◌then◌else◌,
  arith, All, Bool-cases, inl, inr,
}
use huxio.Domain.Endpoint.{EventType}
use huxio.Store.EventTypes.{is_named, revived, upsert, update_matching}

-- Different rows have different names, and a row has this one.
abbrev pub Differs : EventType → EventType → Type 0
Differs a b = is_named a.org_id a.name b ≡ false

abbrev pub HasUniqueNames : List EventType → Type 0
HasUniqueNames [] = Unit
HasUniqueNames (r ∷ rows) = All (Differs r) rows × HasUniqueNames rows

abbrev pub contains_name : String → String → List EventType → Bool
contains_name org_id name rows = any (is_named org_id name) rows

module _ (org_id name : String) where
  -- The rows have unique names, of which this is one.
  pub record IsKept (rows : List EventType) : Type 0 where
    pub has : contains_name org_id name rows ≡ true
    pub unique : HasUniqueNames rows

  pub contains_name-upsert :
      (et : EventType) (rows : List EventType)
      → contains_name org_id name rows ≡ true
      → contains_name org_id name (upsert et rows).0 ≡ true
  unfolding upsert
  contains_name-upsert et [] h = absurd (cc)
  contains_name-upsert et (r ∷ rows) h = ground (arith, contains_name-upsert et rows)

-- A row that is not of this name comes with one that is not either.
All-upsert :
    (a et : EventType) (rows : List EventType)
    → All (Differs a) rows
    → is_named a.org_id a.name et ≡ false
    → All (Differs a) (upsert et rows).0
unfolding upsert
All-upsert a et [] d n = (n, tt)
All-upsert a et (r ∷ rows) d n =
    cases (is_named et.org_id et.name r) (is_set r.deleted_at) (All-upsert a et rows d.1 n)
  where
    cases :
        (b c : Bool)
        → All (Differs a) (upsert et rows).0
        → let after : List EventType × Bool =
            if b
            then if c then (revived et r ∷ rows, true) else (r ∷ rows, false)
            else (r ∷ (upsert et rows).0, (upsert et rows).1) in
          All (Differs a) after.0
    cases true true rest = d
    cases true false rest = d
    cases false c rest = (d.0, rest)

pub upsert-HasUniqueNames :
    (et : EventType) (rows : List EventType)
    → HasUniqueNames rows
    → HasUniqueNames (upsert et rows).0
unfolding upsert
upsert-HasUniqueNames et [] u = (tt, tt)
upsert-HasUniqueNames et (r ∷ rows) u =
    cases (is_named et.org_id et.name r) refl (is_set r.deleted_at)
      (upsert-HasUniqueNames et rows u.1)
  where
    other : is_named et.org_id et.name r ≡ false → is_named r.org_id r.name et ≡ false
    other h = ground (
      arith,
      eq_iff r.org_id et.org_id,
      eq_iff r.name et.name,
      eq_iff et.org_id r.org_id,
      eq_iff et.name r.name,
    )

    cases :
        (b : Bool)
        → is_named et.org_id et.name r ≡ b
        → (c : Bool) → HasUniqueNames (upsert et rows).0
        → let after : List EventType × Bool =
            if b
            then if c then (revived et r ∷ rows, true) else (r ∷ rows, false)
            else (r ∷ (upsert et rows).0, (upsert et rows).1) in
          HasUniqueNames after.0
    cases true same true rest = u
    cases true same false rest = u
    cases false same c rest = (All-upsert r et rows u.0 (other same), rest)

-- An update that leaves the key alone.
abbrev pub KeepsNames : (EventType → EventType) → Type 0
KeepsNames f = (r : EventType) → ((f r).org_id ≡ r.org_id) × ((f r).name ≡ r.name)

module _ (p : EventType → Bool) (f : EventType → EventType) (k : KeepsNames f) where
  is_named-update :
      (org_id name : String) (r : EventType)
      → is_named org_id name (if p r then f r else r) ≡ is_named org_id name r
  is_named-update org_id name r = elim (Bool-cases (p r)) [
    | inl e ↦ rw (e, (k r).0, (k r).1) refl
    | inr e ↦ rw e refl
  ]

  pub contains_name-update_matching :
      (org_id name : String) (rows : List EventType)
      → contains_name org_id name (update_matching p f rows) ≡ contains_name org_id name rows
  unfolding update_matching
  contains_name-update_matching org_id name [] = refl
  contains_name-update_matching org_id name (r ∷ rows) =
      rw (is_named-update org_id name r, contains_name-update_matching org_id name rows) refl

  All-update_matching :
      (a : EventType) (rows : List EventType)
      → All (Differs a) rows
      → All (Differs (if p a then f a else a)) (update_matching p f rows)
  unfolding update_matching
  All-update_matching a [] d = tt
  All-update_matching a (r ∷ rows) d = (
    is_named-update (if p a then f a else a).org_id (if p a then f a else a).name r ∙ renamed r d.0,
    All-update_matching a rows d.1,
  )
    where
      renamed :
          (r : EventType)
          → Differs a r
          → is_named (if p a then f a else a).org_id (if p a then f a else a).name r ≡ false
      renamed r h = elim (Bool-cases (p a)) [ inl e ↦ rw (e, (k a).0, (k a).1) h | inr e ↦ rw e h ]

  pub update_matching-HasUniqueNames :
      (rows : List EventType) → HasUniqueNames rows → HasUniqueNames (update_matching p f rows)
  unfolding update_matching
  update_matching-HasUniqueNames [] u = tt
  update_matching-HasUniqueNames (r ∷ rows) u =
      (All-update_matching r rows u.0, update_matching-HasUniqueNames rows u.1)

pub contains_name-upsert_self :
    (et : EventType) (rows : List EventType)
    → contains_name et.org_id et.name (upsert et rows).0 ≡ true
unfolding upsert
contains_name-upsert_self et [] = ground (arith, eq_iff et.org_id et.org_id, eq_iff et.name et.name)
contains_name-upsert_self et (r ∷ rows) = ground (arith, contains_name-upsert_self et rows)
