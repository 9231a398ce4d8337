-- ===== src/UseCases/Endpoints/Owned.antt =====
-- A caller reaches the live endpoints of its application only, by their id or uid.
use mathlib.Core.List.{Mem, mem-cons_self, mem-cons_of_mem}
use huxio.Prelude.{
  ◌≡◌, refl, ◌⊎◌, inl, inr, Bool, true, false, Option, none, some, List, [], ◌∷◌, String, eq_iff,
  arith, if◌then◌else◌,
}
use huxio.Domain.Endpoint.{Endpoint}
use huxio.Domain.Errors.{Result, ok, err, new_not_found_error, new_internal_error}
use huxio.Store.Messages.{Answer, answers, fails, not_found, conflict, failed, same_uid}
use huxio.Store.Endpoints.{get_endpoint, by_id, by_uid}
use huxio.UseCases.Endpoints.{EndpointAnswers, look_up, second_look_up}

abbrev Finds : (Endpoint → Bool) → List Endpoint → Answer Endpoint → Type 0
Finds p rows (answers e) = (p e ≡ true) × Mem e rows
Finds p rows (fails e) = Unit

get_endpoint-Finds :
    (works : Bool) (p : Endpoint → Bool) (rows : List Endpoint)
    → Finds p rows (get_endpoint works p rows)
unfolding get_endpoint
get_endpoint-Finds true p [] = tt
get_endpoint-Finds false p [] = tt
get_endpoint-Finds false p (e ∷ rows) = tt
get_endpoint-Finds true p (e ∷ rows) =
    cases (p e) refl (get_endpoint true p rows) (get_endpoint-Finds true p rows)
  where
    later : (r : Answer Endpoint) → Finds p rows r → Finds p (e ∷ rows) r
    later (answers x) h = (h.0, mem-cons_of_mem e h.1)
    later (fails x) h = tt

    cases :
        (b : Bool)
        → p e ≡ b
        → (r : Answer Endpoint) → Finds p rows r
        → Finds p (e ∷ rows) (if b then answers e else r)
    cases true here r h = (here, mem-cons_self)
    cases false here r h = later r h

-- What a look-up by a key in an application gives.
abbrev pub IsOwned : String → String → List Endpoint → Result Endpoint → Type 0
IsOwned app_id key rows (ok e) =
    Mem e rows × (e.app_id ≡ app_id) × (e.deleted_at ≡ none) × ((e.id ≡ key) ⊎ (e.uid ≡ some key))
IsOwned app_id key rows (err x) = Unit

by_id-IsOwned :
    (app_id key : String) (rows : List Endpoint) (e : Endpoint)
    → by_id app_id key e ≡ true
    → Mem e rows
    → IsOwned app_id key rows (ok e)
by_id-IsOwned app_id key rows e h m =
    (m, ground (arith, eq_iff e.app_id app_id), ground arith, inl (ground (arith, eq_iff e.id key)))

same_uid-eq : (u : Option String) (key : String) → same_uid u (some key) ≡ true → u ≡ some key
same_uid-eq none key h = absurd (cc)
same_uid-eq (some v) key h = ground (arith, eq_iff v key)

by_uid-IsOwned :
    (app_id key : String) (rows : List Endpoint) (e : Endpoint)
    → by_uid app_id key e ≡ true
    → Mem e rows
    → IsOwned app_id key rows (ok e)
by_uid-IsOwned app_id key rows e h m = (
  m,
  ground (arith, eq_iff e.app_id app_id),
  ground arith,
  inr (same_uid-eq e.uid key (ground arith)),
)

-- A look-up gives nothing but a live endpoint of the application that has the id or the uid.
pub look_up-IsOwned :
    (a : EndpointAnswers) (app_id key : String) (rows : List Endpoint)
    → IsOwned app_id key rows (look_up a app_id key rows)
unfolding look_up
look_up-IsOwned a app_id key rows =
    first (get_endpoint a.by_id_works (by_id app_id key) rows)
      (get_endpoint-Finds a.by_id_works (by_id app_id key) rows)
  where
    second :
        (r : Answer Endpoint)
        → Finds (by_uid app_id key) rows r
        → IsOwned app_id key rows (elim r [
          | answers e ↦ ok e
          | fails not_found ↦ err (new_not_found_error "endpoint")
          | fails _ ↦ err new_internal_error
        ])
    second (answers e) h = by_uid-IsOwned app_id key rows e h.0 h.1
    second (fails not_found) h = tt
    second (fails conflict) h = tt
    second (fails failed) h = tt

    first :
        (r : Answer Endpoint)
        → Finds (by_id app_id key) rows r
        → IsOwned app_id key rows (second_look_up a app_id key rows r)
    first (answers e) h = by_id-IsOwned app_id key rows e h.0 h.1
    first (fails not_found) h =
        second (get_endpoint a.by_uid_works (by_uid app_id key) rows)
          (get_endpoint-Finds a.by_uid_works (by_uid app_id key) rows)
    first (fails conflict) h = tt
    first (fails failed) h = tt
