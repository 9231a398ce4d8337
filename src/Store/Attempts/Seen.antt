-- ===== src/Store/Attempts/Seen.antt =====
-- Which deliveries a replay finds: those whose latest attempt that passes the filters has failed.
use mathlib.Core.List.{Mem, mem-cons_self, mem-cons_of_mem}
use huxio.Prelude.{
  ℕ, ◌≡◌, refl, Bool, true, false, ◌&&◌, List, [], ◌∷◌, ◌++◌, ap, arith, keep, All, All-keep,
  All-sort_by, All-take, sort_by, map, All-map_of, All-imp, ◌==◌, if◌then◌else◌,
}
use huxio.Domain.Attempt.{DeliveryAttempt}
use huxio.Store.Attempts.{
  AttemptFilters, passes_attempt, FailedDelivery, is_latest, failed_in, before_msg, delivery_of,
  list_failed_deliveries, status_number,
}

keep-append_none :
    {A : Type 0} (p : A → Bool) (xs ys : List A)
    → All (λ y. p y ≡ false) ys
    → keep p (xs ++ ys) ≡ keep p xs
keep-append_none p [] [] h = refl
keep-append_none p [] (y ∷ ys) h = rw h.0 (keep-append_none p [] ys h.1)
keep-append_none p (x ∷ xs) ys h = ap (λ r. if p x then x ∷ r else r) (keep-append_none p xs ys h)

-- Attempts that do not pass the filters make no difference: a delivery that failed in the window and
-- succeeded after its end is listed like one that never succeeded.
pub list_failed_deliveries-outside :
    (f : AttemptFilters) (limit : ℕ) (rows later : List DeliveryAttempt)
    → All (λ a. passes_attempt f a ≡ false) later
    → list_failed_deliveries f limit (rows ++ later) ≡ list_failed_deliveries f limit rows
unfolding list_failed_deliveries
list_failed_deliveries-outside f limit rows later h =
    rw (keep-append_none (passes_attempt f) rows later h) refl

All-mem {ℓ} : {A : Type ℓ} (xs : List A) → All (λ x. Mem x xs) xs
All-mem [] = tt
All-mem (x ∷ xs) = (
  mem-cons_self,
  All-imp (λ a. Mem a xs) (λ a. Mem a (x ∷ xs)) xs (λ a m. mem-cons_of_mem x m) (All-mem xs),
)

-- A delivery that failed: its latest attempt among those that pass the filters is a failed one.
pub record HasFailed (f : AttemptFilters) (rows : List DeliveryAttempt) (d : FailedDelivery)
    : Type 0 where
  pub attempt : DeliveryAttempt
  pub logged : Mem attempt rows
  pub passing : passes_attempt f attempt ≡ true
  pub names : d ≡ delivery_of attempt
  pub is_failed : status_number attempt.status ≡ 2
  pub latest : is_latest (keep (passes_attempt f) rows) attempt ≡ true

module _ (f : AttemptFilters) (rows : List DeliveryAttempt) where
  abbrev Passes : DeliveryAttempt → Type 0
  Passes a = Mem a rows × (passes_attempt f a ≡ true)

  abbrev LastFailed : DeliveryAttempt → Type 0
  LastFailed a =
      Mem a rows
      × (passes_attempt f a ≡ true)
      × (status_number a.status ≡ 2)
      × (is_latest (keep (passes_attempt f) rows) a ≡ true)

  passing-Passes : All Passes (keep (passes_attempt f) rows)
  passing-Passes = All-keep Passes (passes_attempt f) rows (
      All-imp (λ a. Mem a rows) (λ a. passes_attempt f a ≡ true → Passes a) rows (λ a m e. (m, e))
        (All-mem rows))

  failed_in-LastFailed : All LastFailed (failed_in (keep (passes_attempt f) rows))
  unfolding failed_in
  failed_in-LastFailed =
      let seen = keep (passes_attempt f) rows in
      let test : DeliveryAttempt → Bool = λ a. is_latest seen a && status_number a.status == 2 in
      All-keep LastFailed test seen (
        All-imp Passes (λ a. test a ≡ true → LastFailed a) seen
          (λ a p e. (p.0, p.1, ground arith, ground arith)) passing-Passes)

  -- Every listed delivery has failed: a logged attempt of it passes the filters and failed, and no
  -- attempt that passes them is newer.
  pub list_failed_deliveries-HasFailed :
      (limit : ℕ) → All (HasFailed f rows) (list_failed_deliveries f limit rows)
  unfolding list_failed_deliveries
  list_failed_deliveries-HasFailed limit =
      let found = failed_in (keep (passes_attempt f) rows) in
      All-take (HasFailed f rows) (if limit == 0 then 1000 else limit)
        (map delivery_of (sort_by before_msg found))
        (All-map_of (HasFailed f rows) delivery_of (sort_by before_msg found) (
          All-imp LastFailed (λ a. HasFailed f rows (delivery_of a)) (sort_by before_msg found)
            (λ a p. record {
              attempt = a;
              logged = p.0;
              passing = p.1;
              names = refl;
              is_failed = p.2;
              latest = p.3;
            })
            (All-sort_by LastFailed before_msg found failed_in-LastFailed)))
