-- ===== src/UseCases/EventTypes/Kept.antt =====
-- What no calls on the catalogue undo: an event type stays in it, once.
use huxio.Prelude.{
  ◌≡◌, refl, ◌∙◌, Bool, true, false, not, ◌&&◌, none, some, List, [], ◌∷◌, String, any, is_set,
  if◌then◌else◌,
}
use huxio.Domain.Endpoint.{EventType}
use huxio.Domain.Errors.{Result, ok, err, AppError}
use huxio.Store.Messages.{Answer, answers, fails, RepoError, not_found, conflict, failed}
use huxio.Store.EventTypes
use huxio.Store.EventTypes.{is_named, revived, upsert, update_matching, update_if}
use huxio.Store.EventTypes.Names.{
  HasUniqueNames, IsKept, KeepsNames, contains_name-upsert, upsert-HasUniqueNames,
  contains_name-update_matching, update_matching-HasUniqueNames, contains_name-upsert_self,
}
use huxio.UseCases.EventTypes.{
  Catalogue, CatalogueAnswers, CreateEventTypeInput, UpdateEventTypeInput, check_new,
  prepare_update, conclude, new_event_type, exists_or_internal, not_found_or_internal,
  create_event_type, update_event_type, archive_event_type, unarchive_event_type,
}

-- A call of the API on the catalogue, at its time, with the calls that work.
pub data Call : Type 0 where
  creates : CreateEventTypeInput → Call
  updates : String → String → UpdateEventTypeInput → Call
  archives : String → String → Call
  unarchives : String → String → Call

unfoldable pub run_call : (String → Bool) → CatalogueAnswers × Call → Catalogue → Catalogue
run_call json_valid (a, creates i) s = (create_event_type json_valid a i s).0
run_call json_valid (a, updates org_id name i) s =
    (update_event_type json_valid a org_id name i s).0
run_call json_valid (a, archives org_id name) s = (archive_event_type a org_id name s).0
run_call json_valid (a, unarchives org_id name) s = (unarchive_event_type a org_id name s).0

unfoldable pub run_calls : (String → Bool) → List (CatalogueAnswers × Call) → Catalogue → Catalogue
unfolding run_call
run_calls json_valid [] s = s
run_calls json_valid (c ∷ cs) s = run_calls json_valid cs (run_call json_valid c s)

module _ (org_id name : String) where
  -- What a write leaves, if it works.
  abbrev Writes : Answer (List EventType) → Type 0
  Writes (answers rows) = IsKept org_id name rows
  Writes (fails e) = Unit

  update_if-Writes :
      (works : Bool) (p : EventType → Bool) (f : EventType → EventType) (rows : List EventType)
      → KeepsNames f
      → IsKept org_id name rows
      → Writes (update_if works p f rows)
  unfolding update_if
  update_if-Writes works p f rows k h = cases works (any p rows)
    where
      cases :
          (w b : Bool)
          → Writes (
              if not w
              then fails failed
              else if b
              then answers (update_matching p f rows)
              else fails not_found)
      cases false b = tt
      cases true false = tt
      cases true true = record {
        has = contains_name-update_matching p f k org_id name rows ∙ h.has;
        unique = update_matching-HasUniqueNames p f k rows h.unique;
      }

  create_event_type-Writes :
      (works : Bool) (et : EventType) (rows : List EventType)
      → IsKept org_id name rows
      → Writes (EventTypes.create_event_type works et rows)
  unfolding EventTypes.create_event_type
  create_event_type-Writes works et rows h = cases works (upsert et rows).1
    where
      cases :
          (w b : Bool)
          → Writes (
              if not w
              then fails failed
              else if b
              then answers (upsert et rows).0
              else fails conflict)
      cases false b = tt
      cases true false = tt
      cases true true = record {
        has = contains_name-upsert org_id name et rows h.has;
        unique = upsert-HasUniqueNames et rows h.unique;
      }

  conclude-IsKept :
      {A : Type 0} (s : Catalogue) (org : String) (report : RepoError → AppError) (a : A)
      (w : Answer (List EventType))
      → IsKept org_id name s.rows
      → Writes w
      → IsKept org_id name (conclude s org report a w).0.rows
  unfolding conclude
  conclude-IsKept s org report a (answers rows) h k = k
  conclude-IsKept s org report a (fails e) h k = h

  run_call-IsKept :
      (json_valid : String → Bool) (a : CatalogueAnswers) (c : Call) (s : Catalogue)
      → IsKept org_id name s.rows
      → IsKept org_id name (run_call json_valid (a, c) s).rows
  unfolding run_call create_event_type update_event_type archive_event_type unarchive_event_type
      EventTypes.update_event_type EventTypes.archive_event_type EventTypes.unarchive_event_type
      EventTypes.set_deleted_at
  run_call-IsKept json_valid a (creates i) s h = checked (check_new json_valid i)
    where
      checked :
          (r : Result (Unit {0}))
          → let after : Catalogue × Result EventType = elim r [
            | err e ↦ (s, err e)
            | ok _ ↦
                conclude s i.org_id exists_or_internal
                  (new_event_type a.now i)
                  (EventTypes.create_event_type a.writes (new_event_type a.now i) s.rows)
          ] in
            IsKept org_id name after.0.rows
      checked (err e) = h
      checked (ok _) =
          conclude-IsKept s i.org_id exists_or_internal (new_event_type a.now i)
            (EventTypes.create_event_type a.writes (new_event_type a.now i) s.rows) h
            (create_event_type-Writes a.writes (new_event_type a.now i) s.rows h)
  run_call-IsKept json_valid a (updates org key i) s h =
      checked (prepare_update json_valid a org key i s.rows)
    where
      checked :
          (r : Result EventType)
          → let after : Catalogue × Result EventType = elim r [
            | err e ↦ (s, err e)
            | ok et ↦
                conclude s org not_found_or_internal et
                  (EventTypes.update_event_type a.writes et s.rows)
          ] in
            IsKept org_id name after.0.rows
      checked (err e) = h
      checked (ok et) =
          conclude-IsKept s org not_found_or_internal et
            (EventTypes.update_event_type a.writes et s.rows) h
            (update_if-Writes a.writes
              (λ r. is_named et.org_id et.name r && not (is_set r.deleted_at))
              (λ r. record r {
                description = et.description;
                schemas = et.schemas;
                updated_at = et.updated_at;
              })
              s.rows (λ r. (refl, refl)) h)
  run_call-IsKept json_valid a (archives org key) s h =
      conclude-IsKept s org not_found_or_internal tt
        (EventTypes.archive_event_type a.writes a.now org key s.rows) h
        (update_if-Writes a.writes (λ r. is_named org key r && not (is_set r.deleted_at))
          (λ r. record r { deleted_at = some a.now; updated_at = a.now }) s.rows (λ r. (refl, refl))
          h)
  run_call-IsKept json_valid a (unarchives org key) s h =
      conclude-IsKept s org not_found_or_internal tt
        (EventTypes.unarchive_event_type a.writes a.now org key s.rows) h
        (update_if-Writes a.writes (λ r. is_named org key r && is_set r.deleted_at)
          (λ r. record r { deleted_at = none; updated_at = a.now }) s.rows (λ r. (refl, refl)) h)

  run_calls-IsKept :
      (json_valid : String → Bool) (cs : List (CatalogueAnswers × Call)) (s : Catalogue)
      → IsKept org_id name s.rows
      → IsKept org_id name (run_calls json_valid cs s).rows
  unfolding run_calls
  run_calls-IsKept json_valid [] s h = h
  run_calls-IsKept json_valid ((a, c) ∷ cs) s h =
      run_calls-IsKept json_valid cs (run_call json_valid (a, c) s)
        (run_call-IsKept json_valid a c s h)

-- What a creation says of the catalogue that it leaves, if it worked.
abbrev pub Creates : CreateEventTypeInput → Catalogue × Result EventType → Type 0
Creates i (s, ok et) = IsKept i.org_id i.name s.rows
Creates i (s, err e) = Unit

create_event_type-Creates :
    (json_valid : String → Bool) (a : CatalogueAnswers) (i : CreateEventTypeInput) (s : Catalogue)
    → HasUniqueNames s.rows
    → Creates i (create_event_type json_valid a i s)
unfolding create_event_type conclude EventTypes.create_event_type
create_event_type-Creates json_valid a i s u =
    checked (check_new json_valid i) a.writes (upsert (new_event_type a.now i) s.rows).1
  where
    checked :
        (r : Result (Unit {0})) (w b : Bool)
        → let written : Answer (List EventType) =
            if not w
            then fails failed
            else if b
            then answers (upsert (new_event_type a.now i) s.rows).0
            else fails conflict in
          let after : Catalogue × Result EventType = elim r [
            | err e ↦ (s, err e)
            | ok _ ↦ conclude s i.org_id exists_or_internal (new_event_type a.now i) written
          ] in
          Creates i after
    checked (err e) w b = tt
    checked (ok _) false b = tt
    checked (ok _) true false = tt
    checked (ok _) true true = record {
      has = contains_name-upsert_self (new_event_type a.now i) s.rows;
      unique = upsert-HasUniqueNames (new_event_type a.now i) s.rows u;
    }

-- An event type that was created stays in the catalogue, whatever calls follow on any event types and
-- whichever of them fail; and its names stay unique, if they were before.
pub created_stays :
    (json_valid : String → Bool) (a : CatalogueAnswers) (i : CreateEventTypeInput) (s : Catalogue)
    (et : EventType) (cs : List (CatalogueAnswers × Call))
    → HasUniqueNames s.rows
    → (create_event_type json_valid a i s).1 ≡ ok et
    → IsKept i.org_id i.name (run_calls json_valid cs (create_event_type json_valid a i s).0).rows
created_stays json_valid a i s et cs u made =
    run_calls-IsKept i.org_id i.name json_valid cs (create_event_type json_valid a i s).0 (
      of_result (create_event_type json_valid a i s) made
        (create_event_type-Creates json_valid a i s u))
  where
    of_result :
        (r : Catalogue × Result EventType)
        → r.1 ≡ ok et
        → Creates i r
        → IsKept i.org_id i.name r.0.rows
    of_result (s', ok x) made h = h
    of_result (s', err e) made h = absurd (cc)
