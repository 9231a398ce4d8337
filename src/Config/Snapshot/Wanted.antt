-- ===== src/Config/Snapshot/Wanted.antt =====
-- What each endpoint that a message matches is like.
use huxio.Prelude.{
  ℕ, ◌≡◌, refl, Bool, true, false, Option, some, List, [], ◌∷◌, String, str_eq, eq_iff,
  if◌then◌else◌, keep, inl, inr, arith, All, All-keep, All-append, All-imp, Bool-cases, text_mem,
}
use huxio.Prelude.Dict.{Dict, get}
use huxio.Domain.Endpoint.{
  deliverable, wants_channels, wants_event_type, is_empty, Application as ApplicationRow,
}
use huxio.Config.Snapshot.{
  Endpoint, SnapshotData, new_application, initial, build_snapshot, deliverable_to,
  matching_endpoints,
}
use huxio.Config.Snapshot.Matching.{copies, subscribed, unfiltered, built, matching_endpoints-scan}

-- An endpoint of the application that wants the event type.
abbrev Subscribes : String → String → Endpoint → Type 0
Subscribes app_id name e = (e.row.app_id ≡ app_id) × (wants_event_type e.row name ≡ true)

-- An endpoint that a message of the application is meant for.
pub record IsWanted (app_id name : String) (channels : List String) (e : Endpoint) : Type 0 where
  pub own : e.row.app_id ≡ app_id
  pub wants_type : wants_event_type e.row name ≡ true
  pub wants_channel : wants_channels e.row channels ≡ true
  pub live : deliverable e.row ≡ true

copies-All :
    (P : Endpoint → Type 0) (e : Endpoint) (names : List String) (name : String)
    → (text_mem name names ≡ true → P e)
    → All P (copies e names name)
unfolding copies
copies-All P e [] name h = tt
copies-All P e (n ∷ ns) name h = elim (Bool-cases (str_eq n name)) [
  | inl same ↦ rw same (h (rw same refl), copies-All P e ns name (λ found. h (rw same refl)))
  | inr other ↦ rw other (copies-All P e ns name (λ found. h (rw other found)))
]

subscribed-All :
    (app_id name : String) (es : List Endpoint)
    → All (λ e. Subscribes app_id name e) (subscribed app_id name es)
unfolding subscribed wants_event_type
subscribed-All app_id name [] = tt
subscribed-All app_id name (e ∷ es) =
    All-append (λ e. Subscribes app_id name e) _ _ (cases (str_eq e.row.app_id app_id) refl)
      (subscribed-All app_id name es)
  where
    cases :
        (b : Bool)
        → str_eq e.row.app_id app_id ≡ b
        → All (λ e. Subscribes app_id name e) (if b then copies e e.row.event_types name else [])
    cases true h =
        copies-All (λ e. Subscribes app_id name e) e e.row.event_types name
          (λ found. ((eq_iff e.row.app_id app_id).0 h, ground (arith, found)))
    cases false h = tt

unfiltered-All :
    (app_id name : String) (es : List Endpoint)
    → All (λ e. Subscribes app_id name e) (unfiltered app_id es)
unfolding unfiltered wants_event_type
unfiltered-All app_id name [] = tt
unfiltered-All app_id name (e ∷ es) =
    All-append (λ e. Subscribes app_id name e) _ _
      (cases (str_eq e.row.app_id app_id) refl (is_empty e.row.event_types) refl)
      (unfiltered-All app_id name es)
  where
    cases :
        (b : Bool)
        → str_eq e.row.app_id app_id ≡ b
        → (c : Bool) → is_empty e.row.event_types ≡ c
        → All (λ e. Subscribes app_id name e) (if b then if c then e ∷ [] else [] else [])
    cases true h true k = (((eq_iff e.row.app_id app_id).0 h, rw k refl), tt)
    cases true h false k = tt
    cases false h c k = tt

keep-IsWanted :
    (app_id name : String) (channels : List String) (es : List Endpoint)
    → All (λ e. Subscribes app_id name e) es
    → All (λ e. IsWanted app_id name channels e) (keep (deliverable_to channels) es)
unfolding deliverable_to
keep-IsWanted app_id name channels es h =
    All-keep (λ e. IsWanted app_id name channels e) (deliverable_to channels) es
      (All-imp (λ e. Subscribes app_id name e) _ es
        (λ e s. λ pass. record {
          own = s.0;
          wants_type = s.1;
          wants_channel = ground (arith, pass);
          live = ground (arith, pass);
        })
        h)

-- A message of an application is delivered only to endpoints of that application that want its
-- event type and its channels and are neither disabled nor deleted.
pub matching_endpoints-IsWanted :
    (open_sealed : String → Option (List ℕ)) (parse : String → Option (Dict String)) (now : ℕ)
    (data_set : SnapshotData) (app_id name : String) (channels : List String) (app : ApplicationRow)
    → get (initial now data_set).apps app_id ≡ some (new_application app)
    → All
        (λ e. IsWanted app_id name channels e)
        (matching_endpoints (build_snapshot open_sealed parse now data_set).0 app_id name channels)
matching_endpoints-IsWanted open_sealed parse now data_set app_id name channels app h =
    let es = built open_sealed parse now data_set.endpoints in
    rw (matching_endpoints-scan open_sealed parse now data_set app_id name channels app h) (
      All-append (λ e. IsWanted app_id name channels e) _ _
        (keep-IsWanted app_id name channels _ (subscribed-All app_id name es))
        (keep-IsWanted app_id name channels _ (unfiltered-All app_id name es)))
