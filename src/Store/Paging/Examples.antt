-- ===== src/Store/Paging/Examples.antt =====
-- The endpoints of an application, in pages of two by their id.
use Prim.Native.Char.{Char, code}
use huxio.Fixtures.{row}
use huxio.Prelude.{
  ◌≡◌, refl, ap, false, Option, none, some, List, [], ◌∷◌, String, str_eq, arith, pos,
  if◌then◌else◌, ◌==◌, Bool-cases, inl, inr, eq_iff, sym, ◌∙◌,
}
use huxio.Prelude.Order.{text_before, text_before-IsStrict}
use huxio.Domain.Endpoint.{Endpoint, deliverable}
use huxio.Store.Paging.{CursorCodec, SortKeys, follow}
use huxio.Store.Paging.Complete.{IsCodec, HasKeys, in_order, follow_complete}

-- A text that holds a pair: each character of the first has a mark before it.
glue : String → String → String
glue String.[] id = String.◌∷◌ "." id
glue (String.◌∷◌ c s) id = String.◌∷◌ "-" (String.◌∷◌ c (glue s id))

abbrev grown : Char → Option (String × String) → Option (String × String)
grown c none = none
grown c (some (s, id)) = some (String.◌∷◌ c s, id)

unglue : String → Option (String × String)
unglue String.[] = none
unglue (String.◌∷◌ m String.[]) = if code m == 46 then some ("", "") else none
unglue (String.◌∷◌ m (String.◌∷◌ c s)) =
    let rest = unglue s in if code m == 46 then some ("", String.◌∷◌ c s) else grown c rest

unglue-glue : (s id : String) → unglue (glue s id) ≡ some (s, id)
unfolding unglue glue
unglue-glue String.[] String.[] = refl
unglue-glue String.[] (String.◌∷◌ d id) = refl
unglue-glue (String.◌∷◌ c s) id = ap (grown c) (unglue-glue s id)

abbrev codec : CursorCodec (String × String)
codec = record {
  marshal = λ value id. (value, id);
  unmarshal = λ pair. some pair;
  encode64 = λ pair. glue pair.0 pair.1;
  decode64 = unglue;
}

not_empty : (s id : String) → glue s id ≡ "" → str_eq (glue s id) "" ≡ false
unfolding unglue
not_empty s id e =
    let same : ◌≡◌ {A = Option (String × String)} (some (s, id)) none =
      sym (unglue-glue s id) ∙ ap unglue e in
    absurd (cc)

glue_is_full : (s id : String) → str_eq (glue s id) "" ≡ false
glue_is_full s id = elim (Bool-cases (str_eq (glue s id) "")) [
  | inl e ↦ not_empty s id (ground (arith, e, eq_iff (glue s id) ""))
  | inr e ↦ e
]

codec-IsCodec : IsCodec codec
codec-IsCodec = record {
  decodes = λ pair. unglue-glue pair.0 pair.1;
  unmarshals = λ value id. refl;
  is_full = λ value id. glue_is_full value id;
}

-- `GetEndpoints` sorts by the id, whose column is a text.
abbrev by_id : SortKeys Endpoint String
by_id = record {
  value = λ e. e.id;
  id = λ e. e.id;
  lt = text_before;
  desc = false;
  print = λ s. s;
  parse = λ s. some s;
}

abbrev endpoints : List Endpoint
endpoints = row "ep3" [] ∷ row "ep1" [] ∷ row "ep5" [] ∷ row "ep2" [] ∷ row "ep4" [] ∷ []

endpoints-HasKeys : HasKeys by_id endpoints
unfolding text_before
endpoints-HasKeys = (
  (refl, (refl, (refl, (refl, tt)))),
  ((refl, (refl, (refl, tt))), ((refl, (refl, tt)), ((refl, tt), (tt, tt)))),
)

follow_complete_example :
    follow by_id codec deliverable endpoints (pos 2) 6 "" ≡ in_order by_id deliverable endpoints
unfolding deliverable text_before
follow_complete_example =
    follow_complete by_id codec codec-IsCodec (λ v. refl) text_before-IsStrict deliverable endpoints
      (pos 2) endpoints-HasKeys (refl, (refl, (refl, (refl, (refl, tt))))) 6 (omega arith)

sorted :
    in_order by_id deliverable endpoints
    ≡ row "ep1" [] ∷ row "ep2" [] ∷ row "ep3" [] ∷ row "ep4" [] ∷ row "ep5" [] ∷ []
unfolding deliverable text_before
sorted = refl
