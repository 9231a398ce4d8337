-- ===== src/Config/Snapshot/Matching.antt =====
-- What the indexes of the snapshot answer, compared with a scan of the endpoints.
use mathlib.Core.List.{append_assoc, append-nil}
use mathlib.Core.Option.{some-injective}
use huxio.Prelude.{
  ℕ, ◌≡◌, refl, sym, ap, ◌∙◌, true, false, Option, none, some, List, [], ◌∷◌, ◌++◌, String, str_eq,
  eq_iff, if◌then◌else◌, keep, ◌⊎◌, inl, inr, or_else, Bool-cases,
}
use huxio.Prelude.Dict.{Dict, get, put, get-put}
use huxio.Domain.Endpoint.{
  deliverable, wants_channels, wants_event_type, is_empty, Endpoint as EndpointRow,
  Application as ApplicationRow,
}
use huxio.Config.Snapshot.{
  Endpoint, Application, Snapshot, SnapshotData, Problem, subscribe, route, place, matching_in,
  index_endpoint, new_application, initial, build_endpoint, add_endpoints, build_snapshot,
  deliverable_to, matching_endpoints,
}

-- The entry, once for each time the name is among the endpoint's event types.
unfoldable pub copies : Endpoint → List String → String → List Endpoint
copies e [] name = []
copies e (n ∷ ns) name = let rest = copies e ns name in if str_eq n name then e ∷ rest else rest

-- The scan: the entries of one application that name the event type.
unfoldable pub subscribed : String → String → List Endpoint → List Endpoint
unfolding copies
subscribed app_id name [] = []
subscribed app_id name (e ∷ es) =
    (if str_eq e.row.app_id app_id then copies e e.row.event_types name else [])
    ++ subscribed app_id name es

-- The scan: the entries of one application that name no event type.
unfoldable pub unfiltered : String → List Endpoint → List Endpoint
unfiltered app_id [] = []
unfiltered app_id (e ∷ es) =
    (if str_eq e.row.app_id app_id then if is_empty e.row.event_types then e ∷ [] else [] else [])
    ++ unfiltered app_id es

by_name : Application → String → List Endpoint
by_name a name = or_else (get a.by_event_type name) []

routed : String → Endpoint → Application → Application
routed app_id e a = if str_eq e.row.app_id app_id then route e a else a

routed_own :
    (app_id : String) (e : Endpoint) (a : Application)
    → str_eq e.row.app_id app_id ≡ true
    → routed app_id e a ≡ route e a
unfolding routed
routed_own app_id e a h = rw h refl

routed_other :
    (app_id : String) (e : Endpoint) (a : Application)
    → str_eq e.row.app_id app_id ≡ false
    → routed app_id e a ≡ a
unfolding routed
routed_other app_id e a h = rw h refl

route_all : String → List Endpoint → Application → Application
unfolding routed
route_all app_id [] a = a
route_all app_id (e ∷ es) a = route_all app_id es (routed app_id e a)

subscribe-get :
    (e : Endpoint) (names : List String) (m : Dict (List Endpoint)) (name : String)
    → or_else (get (subscribe e names m) name) [] ≡ or_else (get m name) [] ++ copies e names name
unfolding subscribe copies
subscribe-get e [] m name = sym (append-nil (or_else (get m name) []))
subscribe-get e (n ∷ ns) m name =
    let have = or_else (get m n) [] in
    let m' = put m n (have ++ e ∷ []) in
    elim (Bool-cases (str_eq n name)) [
      | inl same ↦
          let at : n ≡ name = (eq_iff n name).0 same in
          subscribe-get e ns m' name
          ∙ rw (get-put m n (have ++ e ∷ []) name, same, ← at)
              (append_assoc have (e ∷ []) (copies e ns n))
      | inr other ↦ subscribe-get e ns m' name ∙ rw (get-put m n (have ++ e ∷ []) name, other) refl
    ]

List-cases {ℓ} : {A : Type ℓ} (xs : List A) → (xs ≡ []) ⊎ (is_empty xs ≡ false)
List-cases [] = inl refl
List-cases (x ∷ xs) = inr refl

route-by_name :
    (e : Endpoint) (a : Application) (name : String)
    → by_name (route e a) name ≡ by_name a name ++ copies e e.row.event_types name
unfolding route by_name copies
route-by_name e a name = elim (List-cases e.row.event_types) [
  | inl h ↦ rw h (sym (append-nil (by_name a name)))
  | inr h ↦ rw h (subscribe-get e e.row.event_types a.by_event_type name)
]

route-all_event_types :
    (e : Endpoint) (a : Application)
    → (route e a).all_event_types
      ≡ a.all_event_types ++ (if is_empty e.row.event_types then e ∷ [] else [])
unfolding route
route-all_event_types e a = elim (Bool-cases (is_empty e.row.event_types)) [
  | inl h ↦ rw h refl
  | inr h ↦ rw h (sym (append-nil a.all_event_types))
]

route_all-by_name :
    (app_id : String) (es : List Endpoint) (a : Application) (name : String)
    → by_name (route_all app_id es a) name ≡ by_name a name ++ subscribed app_id name es
unfolding route_all subscribed routed
route_all-by_name app_id [] a name = sym (append-nil (by_name a name))
route_all-by_name app_id (e ∷ es) a name = elim (Bool-cases (str_eq e.row.app_id app_id)) [
  | inl h ↦ rw h (
      route_all-by_name app_id es (route e a) name
      ∙ rw (route-by_name e a name) (
          append_assoc (by_name a name) (copies e e.row.event_types name)
            (subscribed app_id name es)))
  | inr h ↦ rw h (route_all-by_name app_id es a name)
]

route_all-all_event_types :
    (app_id : String) (es : List Endpoint) (a : Application)
    → (route_all app_id es a).all_event_types ≡ a.all_event_types ++ unfiltered app_id es
unfolding route_all unfiltered
route_all-all_event_types app_id [] a = sym (append-nil a.all_event_types)
route_all-all_event_types app_id (e ∷ es) a = elim (Bool-cases (str_eq e.row.app_id app_id)) [
  | inl h ↦
      ap (λ r. (route_all app_id es r).all_event_types) (routed_own app_id e a h)
      ∙ route_all-all_event_types app_id es (route e a)
      ∙ rw (h, route-all_event_types e a)
          (append_assoc a.all_event_types (if is_empty e.row.event_types then e ∷ [] else [])
            (unfiltered app_id es))
  | inr h ↦
      ap (λ r. (route_all app_id es r).all_event_types) (routed_other app_id e a h)
      ∙ rw h (route_all-all_event_types app_id es a)
]

place-get :
    (e : Endpoint) (o : Option Application) (s : Snapshot) (app_id : String) (a : Application)
    → get s.apps e.row.app_id ≡ o
    → get s.apps app_id ≡ some a
    → get (place e o s).apps app_id ≡ some (routed app_id e a)
unfolding place
place-get e none s app_id a found h = elim (Bool-cases (str_eq e.row.app_id app_id)) [
  | inl same ↦
      let at : e.row.app_id ≡ app_id = (eq_iff e.row.app_id app_id).0 same in
      let both : none ≡ some a = sym found ∙ ap (λ k. get s.apps k) at ∙ h in absurd (cc)
  | inr other ↦ rw (routed_other app_id e a other) h
]
place-get e (some b) s app_id a found h = elim (Bool-cases (str_eq e.row.app_id app_id)) [
  | inl same ↦
      let at : e.row.app_id ≡ app_id = (eq_iff e.row.app_id app_id).0 same in
      let it : b ≡ a = some-injective b a (sym found ∙ ap (λ k. get s.apps k) at ∙ h) in
      rw (get-put s.apps e.row.app_id (route e b) app_id, routed_own app_id e a same, same, it) refl
  | inr other ↦
      rw (get-put s.apps e.row.app_id (route e b) app_id, routed_other app_id e a other, other) h
]

index_endpoint-get :
    (e : Endpoint) (s : Snapshot) (app_id : String) (a : Application)
    → get s.apps app_id ≡ some a
    → get (index_endpoint e s).apps app_id ≡ some (routed app_id e a)
unfolding index_endpoint
index_endpoint-get e s app_id a h = place-get e (get s.apps e.row.app_id) _ app_id a refl h

module _ (open_sealed : String → Option (List ℕ)) (parse : String → Option (Dict String))
    (now : ℕ) where
  -- The endpoints that can be built, in order.
  unfoldable pub built : List EndpointRow → List Endpoint
  built [] = []
  built (row ∷ rows) = elim (build_endpoint open_sealed parse now row) [
    | inl problem ↦ built rows
    | inr e ↦ e ∷ built rows
  ]

  add_endpoints-get :
      (rows : List EndpointRow) (s : Snapshot) (problems : List Problem) (app_id : String)
      (a : Application)
      → get s.apps app_id ≡ some a
      → get (add_endpoints open_sealed parse now rows (s, problems)).0.apps app_id
        ≡ some (route_all app_id (built rows) a)
  unfolding add_endpoints route_all built get huxio.Domain.Endpoint.active_secrets
  add_endpoints-get [] s problems app_id a h = h
  add_endpoints-get (row ∷ rows) s problems app_id a h =
      cases (build_endpoint open_sealed parse now row) refl (add_endpoints-get rows)
    where
      cases :
          (r : Problem ⊎ Endpoint)
          → build_endpoint open_sealed parse now row ≡ r
          → ((s : Snapshot) (problems : List Problem) (app_id : String) (a : Application)
              → get s.apps app_id ≡ some a
              → get (add_endpoints open_sealed parse now rows (s, problems)).0.apps app_id
                ≡ some (route_all app_id (built rows) a))
          → get (add_endpoints open_sealed parse now (row ∷ rows) (s, problems)).0.apps app_id
            ≡ some (route_all app_id (built (row ∷ rows)) a)
      cases (inl p) eq next = rw eq (next s (problems ++ p ∷ []) app_id a h)
      cases (inr e) eq next = rw eq (
          next (index_endpoint e s) problems app_id (routed app_id e a)
            (index_endpoint-get e s app_id a h))

  -- Which endpoints get a message of an application of the snapshot: exactly those that a scan of
  -- the endpoints that could be built finds, first the ones that name the event type and then the
  -- ones that name none, less those that are disabled, deleted or filter the channels out. An
  -- endpoint that could not be built is missing, and no other.
  pub matching_endpoints-scan :
      (data_set : SnapshotData) (app_id name : String) (channels : List String)
      (app : ApplicationRow)
      → get (initial now data_set).apps app_id ≡ some (new_application app)
      → matching_endpoints (build_snapshot open_sealed parse now data_set).0 app_id name channels
        ≡ keep (deliverable_to channels) (subscribed app_id name (built data_set.endpoints))
          ++ keep (deliverable_to channels) (unfiltered app_id (built data_set.endpoints))
  unfolding matching_endpoints matching_in build_snapshot by_name new_application subscribed get
  matching_endpoints-scan data_set app_id name channels app h =
      rw
        (
          add_endpoints-get data_set.endpoints (initial now data_set) [] app_id
              (new_application app) h,
          route_all-by_name app_id (built data_set.endpoints) (new_application app) name,
          route_all-all_event_types app_id (built data_set.endpoints) (new_application app),
        )
        refl
