-- ===== src/UseCases/EventTypes/Examples.antt =====
-- An event type that is created, archived and created again.
use huxio.Prelude.{ℕ, ◌≡◌, refl, Bool, true, [], ◌∷◌, String}
use huxio.Domain.Errors.{ok}
use huxio.Store.EventTypes
use huxio.Store.EventTypes.{upsert}
use huxio.Utils.{is_blank}
use huxio.UseCases.EventTypes.{
  Catalogue, CatalogueAnswers, CreateEventTypeInput, create_event_type, new_event_type, check_new,
  conclude, validate_event_type_name,
}
use huxio.Store.EventTypes.Names.{IsKept}
use huxio.UseCases.EventTypes.Kept.{creates, archives, run_calls, created_stays}

abbrev at : ℕ → CatalogueAnswers
at now = record { now = now; reads = true; writes = true }

abbrev json_valid : String → Bool
json_valid text = true

abbrev paid : CreateEventTypeInput
paid = record { org_id = "org"; name = "invoice.paid"; description = ""; schemas = "" }

abbrev empty : Catalogue
empty = record { rows = []; announced = [] }

created : (create_event_type json_valid (at 5) paid empty).1 ≡ ok (new_event_type 5 paid)
unfolding create_event_type conclude EventTypes.create_event_type upsert check_new
    validate_event_type_name is_blank
created = refl

created_stays_example :
    IsKept "org" "invoice.paid"
      (run_calls json_valid
        ((at 6, archives "org" "invoice.paid") ∷ (at 7, creates paid) ∷ [])
        (create_event_type json_valid (at 5) paid empty).0).rows
created_stays_example =
    created_stays json_valid (at 5) paid empty (new_event_type 5 paid)
      ((at 6, archives "org" "invoice.paid") ∷ (at 7, creates paid) ∷ []) tt created
