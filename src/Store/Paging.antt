-- ===== src/Store/Paging.antt =====
-- internal/adapters/outbound/persistence/postgres/query_builder.go and internal/domain/repositories/
-- query.go: a list in pages, each of which starts past the last row of the one before. The libraries
-- for JSON and base64 are parameters, and so are the print and the parser of a sort column.
pub mod Complete
mod Examples
use huxio.Prelude.{
  ℕ, zero, suc, ◌+◌, Bool, true, false, not, ◌&&◌, ◌||◌, Option, none, some, List, [], ◌∷◌, ◌++◌,
  String, str_eq, ltb, if◌then◌else◌, length, take, keep, sort_by, ℤ,
}
use huxio.Prelude.Order.{text_before, directed, lex}
use huxio.Store.Filters.{get_limit}

-- `cursorPayload` as the JSON of a library, and the base64 text of that.
pub record CursorCodec (Json : Type 0) : Type 0 where
  pub marshal : String → String → Json
  pub unmarshal : Json → Option (String × String)
  pub encode64 : Json → String
  pub decode64 : String → Option Json

-- `EncodeCursor`
unfoldable pub encode_cursor : {Json : Type 0} → CursorCodec Json → String → String → String
encode_cursor c value id = c.encode64 (c.marshal value id)

-- `DecodeCursor`
unfoldable pub decode_cursor :
    {Json : Type 0} → CursorCodec Json → String → Option (String × String)
decode_cursor c encoded =
    if str_eq encoded ""
    then none
    else elim (c.decode64 encoded) [ none ↦ none | some raw ↦ c.unmarshal raw ]

pub record CursorPagination : Type 0 where
  pub cursor : String
  pub limit : ℤ

pub record CursorResult (A : Type 0) : Type 0 where
  pub items : List A
  pub next_cursor : Option String
  pub has_more : Bool
  pub limit : ℕ

-- The sort column of a table and its id column, with the direction of both.
pub record SortKeys (A V : Type 0) : Type 0 where
  pub value : A → V
  pub id : A → String
  pub lt : V → V → Bool
  pub desc : Bool
  pub print : V → String
  pub parse : String → Option V

abbrev pub last : {A : Type 0} → List A → Option A
last [] = none
last (a ∷ []) = some a
last (a ∷ b ∷ rest) = last (b ∷ rest)

module _ {A V : Type 0} (k : SortKeys A V) where
  abbrev pub key : A → V × String
  key a = (k.value a, k.id a)

  -- The keyset predicate, which is also the default order of the list.
  abbrev pub past : V × String → V × String → Bool
  past a b = lex (directed k.desc k.lt) (directed k.desc text_before) a b

module _ {A V Json : Type 0} (k : SortKeys A V) where
  -- The predicate of a cursor. One that cannot be read is the first page.
  unfoldable pub cursor_predicate : CursorCodec Json → String → A → Bool
  cursor_predicate c cursor a = elim (decode_cursor c cursor) [
    | none ↦ true
    | some (raw, id) ↦
        if str_eq id ""
        then true
        else elim (k.parse raw) [ none ↦ true | some v ↦ past k (v, id) (key k a) ]
  ]

  -- `ApplyKeysetCursor`
  unfoldable pub apply_keyset_cursor : CursorCodec Json → CursorPagination → ℕ × (A → Bool)
  unfolding cursor_predicate
  apply_keyset_cursor c page = (
    get_limit page.limit,
    if str_eq page.cursor "" then (λ a. true) else cursor_predicate c page.cursor,
  )

  -- The cursor to the next page, from the last row of this one.
  unfoldable pub next_of : CursorCodec Json → Option A → Option String
  unfolding encode_cursor
  next_of c none = none
  next_of c (some a) = some (encode_cursor c (k.print (k.value a)) (k.id a))

  -- `BuildCursorResult`
  unfoldable pub build_cursor_result : CursorCodec Json → List A → ℕ → CursorResult A
  unfolding next_of
  build_cursor_result c items limit =
      if ltb limit (length items)
      then record {
        items = take limit items;
        next_cursor = next_of c (last (take limit items));
        has_more = true;
        limit = limit;
      }
      else record { items = items; next_cursor = none; has_more = false; limit = limit }

  -- The list of a repository: its filters and the cursor, the default order, and one row more than the
  -- limit.
  unfoldable pub get_page :
      CursorCodec Json → (A → Bool) → List A → CursorPagination → CursorResult A
  unfolding apply_keyset_cursor
  get_page c filter rows page =
      let (limit, p) = apply_keyset_cursor c page in
      build_cursor_result c
        (take (limit + 1)
          (sort_by (λ a b. past k (key k a) (key k b)) (keep (λ a. filter a && p a) rows)))
        limit

  -- What a client that follows the cursors gets, in so many pages at most.
  unfoldable pub follow : CursorCodec Json → (A → Bool) → List A → ℤ → ℕ → String → List A
  unfolding get_page
  follow c filter rows limit zero cursor = []
  follow c filter rows limit (suc pages) cursor =
      let page = get_page c filter rows (record { cursor = cursor; limit = limit }) in
      page.items
      ++ elim page.next_cursor [ none ↦ [] | some next ↦ follow c filter rows limit pages next ]
