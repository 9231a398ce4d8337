-- ===== src/UseCases/Endpoints/Examples.antt =====
-- A rotation of an endpoint's secret.
use huxio.Prelude.{◌+◌, ◌*◌, ◌≡◌, refl, true, false, some, [], ◌∷◌, arith}
use huxio.Fixtures.{row}
use huxio.Domain.Errors.{ok}
use huxio.Dispatch.Breaker.{second}
use huxio.Store.Endpoints
use huxio.UseCases.Endpoints.{
  EndpointTables, EndpointAnswers, Tools, look_up, rotate_secret, secret_rotation_overlap,
}
use huxio.UseCases.Endpoints.Rotation.{IsRotation, rotate_secret-IsRotation}
use huxio.UseCases.Endpoints.Owned.{IsOwned, look_up-IsOwned}

abbrev tools : Tools
tools = record {
  seal = λ text. some text;
  open_sealed = λ text. some text;
  parse_url = λ raw. some ("https", "example.com");
}

abbrev asked : EndpointAnswers
asked = record {
  now = 100 * second;
  by_id_works = true;
  by_uid_works = true;
  write_works = true;
  disable_works = true;
  clear_works = false;
  random = some "AAAA";
  new_id = "ep9";
}

abbrev shop : EndpointTables
shop = record {
  rows =
      record (row "ep1" []) { disabled_at = some 5; first_failure_at = some 3 }
      ∷ record (row "ep2" []) { uid = some "billing" }
      ∷ [];
  announced = [];
}

rotate_secret-IsRotation_example :
    IsRotation tools asked "app" "billing" "" shop
      (100 * second + secret_rotation_overlap)
      (rotate_secret tools asked "app" "billing" "" shop)
rotate_secret-IsRotation_example =
    rotate_secret-IsRotation tools asked "app" "billing" "" shop
      (100 * second + secret_rotation_overlap) (omega arith) (omega arith)

look_up-IsOwned_example :
    IsOwned "app" "billing" shop.rows (look_up asked "app" "billing" shop.rows)
look_up-IsOwned_example = look_up-IsOwned asked "app" "billing" shop.rows

found :
    look_up asked "app" "ep1" shop.rows
    ≡ ok (record (row "ep1" []) { disabled_at = some 5; first_failure_at = some 3 })
unfolding look_up Endpoints.get_endpoint
found = refl
