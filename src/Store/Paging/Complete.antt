-- ===== src/Store/Paging/Complete.antt =====
-- A client that follows the cursors of a list gets its rows, each once.
use mathlib.Core.Path.{subst}
use mathlib.Core.List.{append_assoc, append-nil}
use huxio.Prelude.{
  ℕ, zero, suc, ◌+◌, ◌≤◌, ◌<◌, ◌≡◌, refl, ap, ◌∙◌, sym, Bool, true, false, ◌&&◌, ◌||◌, none, some,
  List, [], ◌∷◌, ◌++◌, String, str_eq, ltb, length, take, drop, keep, sort_by, ℤ, arith, All,
  All-keep, All-imp, All-sort_by, Bool-cases, inl, inr, take-append-drop, length-take, length-drop,
}
use huxio.Prelude.Order.{
  IsStrict, text_before, text_before-IsStrict, directed, directed-IsStrict, lex-IsStrict,
}
use huxio.Prelude.Sort.{IsSorted}
use huxio.Prelude.Keyset.{
  IsUnique, keep-keep, keep-IsUnique, keep-sort_by, keep-past, sort_by-IsSorted, All-middle,
}
use huxio.Store.Filters.{get_limit}
use huxio.Store.Paging.{
  CursorCodec, encode_cursor, decode_cursor, CursorResult, SortKeys, key, past, cursor_predicate,
  apply_keyset_cursor, last, next_of, build_cursor_result, get_page, follow,
}

-- What base64 and JSON are documented to do: a text comes back, and is not empty for an object.
pub record IsCodec {Json : Type 0} (c : CursorCodec Json) : Type 0 where
  pub decodes : (raw : Json) → c.decode64 (c.encode64 raw) ≡ some raw
  pub unmarshals : (value id : String) → c.unmarshal (c.marshal value id) ≡ some (value, id)
  pub is_full : (value id : String) → str_eq (c.encode64 (c.marshal value id)) "" ≡ false

get_limit_pos : (limit : ℤ) → 1 ≤ get_limit limit
unfolding get_limit
get_limit_pos limit = ground arith

take-take-suc {ℓ} : {A : Type ℓ} (n : ℕ) (xs : List A) → take n (take (suc n) xs) ≡ take n xs
take-take-suc zero xs = refl
take-take-suc (suc n) [] = refl
take-take-suc (suc n) (x ∷ xs) = ap (λ r. x ∷ r) (take-take-suc n xs)

take_shorter {ℓ} : {A : Type ℓ} (n : ℕ) (xs : List A) → take n (take (n + 1) xs) ≡ take n xs
take_shorter n xs =
    let e : n + 1 ≡ suc n = omega arith in ap (λ m. take n (take m xs)) e ∙ take-take-suc n xs

take-all {ℓ} : {A : Type ℓ} (n : ℕ) (xs : List A) → length xs ≤ n → take n xs ≡ xs
take-all zero [] h = refl
take-all zero (x ∷ xs) h = absurd (omega (arith, h))
take-all (suc n) [] h = refl
take-all (suc n) (x ∷ xs) h = ap (λ r. x ∷ r) (take-all n xs (omega (arith, h)))

module _ {A V : Type 0} (k : SortKeys A V) where
  abbrev pub later : A → A → Bool
  later a b = past k (key k a) (key k b)

  -- The whole list: the rows that pass the filters, in order.
  abbrev pub in_order : (A → Bool) → List A → List A
  in_order filter rows = sort_by later (keep filter rows)

  pub past-IsStrict : IsStrict k.lt → IsStrict (past k)
  past-IsStrict o =
      lex-IsStrict (directed k.desc k.lt) (directed k.desc text_before)
        (directed-IsStrict k.desc k.lt o)
        (directed-IsStrict k.desc text_before text_before-IsStrict)

  -- No two rows have the same sort value and id.
  abbrev pub HasKeys : List A → Type 0
  HasKeys [] = Unit
  HasKeys (a ∷ rows) = All (λ b. (later a b || later b a) ≡ true) rows × HasKeys rows

  HasKeys-IsUnique :
      (o : IsStrict k.lt) (rows : List A)
      → HasKeys rows
      → IsUnique (key k) (past k) (past-IsStrict o) rows
  HasKeys-IsUnique o [] h = tt
  HasKeys-IsUnique o (a ∷ rows) h = (h.0, HasKeys-IsUnique o rows h.1)

module _ {A V : Type 0} (k : SortKeys A V) where
  -- The last row of a list, and the list as it ends.
  record Ends (xs : List A) : Type 0 where
    front : List A
    row : A
    splits : xs ≡ front ++ row ∷ []
    is_last : last xs ≡ some row

  ends : (xs : List A) → 1 ≤ length xs → Ends xs
  ends [] h = absurd (omega (arith, h))
  ends (a ∷ []) h = record { front = []; row = a; splits = refl; is_last = refl }
  ends (a ∷ b ∷ xs) h =
      let rest = ends (b ∷ xs) (omega arith) in
      record {
        front = a ∷ rest.front;
        row = rest.row;
        splits = ap (λ r. a ∷ r) rest.splits;
        is_last = rest.is_last;
      }

  module _ {Json : Type 0} (c : CursorCodec Json) (law : IsCodec c)
      (prints : (v : V) → k.parse (k.print v) ≡ some v) where
    cursor_of : A → String
    cursor_of a = encode_cursor c (k.print (k.value a)) (k.id a)

    decode_cursor-encode_cursor :
        (value id : String) → decode_cursor c (encode_cursor c value id) ≡ some (value, id)
    unfolding decode_cursor encode_cursor
    decode_cursor-encode_cursor value id =
        rw (law.is_full value id, law.decodes (c.marshal value id)) (law.unmarshals value id)

    cursor_predicate-cursor_of :
        (a b : A)
        → str_eq (k.id a) "" ≡ false
        → cursor_predicate k c (cursor_of a) b ≡ past k (key k a) (key k b)
    unfolding cursor_predicate cursor_of
    cursor_predicate-cursor_of a b full =
        rw (cursor_predicate, decode_cursor-encode_cursor (k.print (k.value a)) (k.id a))
          (rw (full, prints (k.value a)) refl)

    -- The predicate of a row's cursor: what is past the row.
    apply_keyset_cursor-cursor_of :
        (limit : ℤ) (a : A)
        → str_eq (k.id a) "" ≡ false
        → (apply_keyset_cursor k c (record { cursor = cursor_of a; limit = limit })).1
          ≡ (λ b. past k (key k a) (key k b))
    unfolding apply_keyset_cursor cursor_of encode_cursor
    apply_keyset_cursor-cursor_of limit a full =
        rw (law.is_full (k.print (k.value a)) (k.id a))
          (λ i b. cursor_predicate-cursor_of a b full i)

    module _ (o : IsStrict k.lt) (filter : A → Bool) (rows : List A) (limit : ℤ) where
      strict : IsStrict (past k)
      strict = past-IsStrict k o

      abbrev listed : List A
      listed = in_order k filter rows

      page_size : ℕ
      page_size = get_limit limit

      predicate : String → A → Bool
      predicate cursor = (apply_keyset_cursor k c (record { cursor = cursor; limit = limit })).1

      module _ (unique : HasKeys k rows) (ids : All (λ a. str_eq (k.id a) "" ≡ false) rows) where
        kept : IsUnique (key k) (past k) strict (keep filter rows)
        kept = keep-IsUnique (key k) (past k) strict filter rows (HasKeys-IsUnique k o rows unique)

        selected :
            (p : A → Bool) → sort_by (later k) (keep (λ a. filter a && p a) rows) ≡ keep p listed
        selected p =
            ap (sort_by (later k)) (keep-keep p filter rows)
            ∙ sym (keep-sort_by (key k) (past k) strict p (keep filter rows) kept)

        listed-IsSorted : IsSorted (later k) listed
        listed-IsSorted = sort_by-IsSorted (key k) (past k) strict (keep filter rows) kept

        listed-ids : All (λ a. str_eq (k.id a) "" ≡ false) listed
        listed-ids =
            All-sort_by (λ a. str_eq (k.id a) "" ≡ false) (later k) (keep filter rows)
              (All-keep (λ a. str_eq (k.id a) "" ≡ false) filter rows
                (All-imp (λ a. str_eq (k.id a) "" ≡ false)
                  (λ a. filter a ≡ true → str_eq (k.id a) "" ≡ false) rows (λ a e t. e) ids))

        -- A page of the rows that its cursor leaves.
        get_page-left :
            (cursor : String) (ys : List A)
            → keep (predicate cursor) listed ≡ ys
            → get_page k c filter rows (record { cursor = cursor; limit = limit })
              ≡ build_cursor_result k c (take (page_size + 1) ys) page_size
        unfolding get_page apply_keyset_cursor predicate page_size
        get_page-left cursor ys left =
            ap (λ r. build_cursor_result k c (take (get_limit limit + 1) r) (get_limit limit))
              (selected (predicate cursor) ∙ left)

        -- What a cursor's row is past.
        keep-cursor_of :
            (front : List A) (a : A) (ys : List A)
            → listed ≡ front ++ a ∷ ys
            → keep (predicate (cursor_of a)) listed ≡ ys
        unfolding predicate
        keep-cursor_of front a ys split =
            let full : str_eq (k.id a) "" ≡ false =
              All-middle (key k) (past k) strict (λ a. str_eq (k.id a) "" ≡ false) front a ys
                (subst (All (λ a. str_eq (k.id a) "" ≡ false)) split listed-ids) in
            ap (λ p. keep p listed) (apply_keyset_cursor-cursor_of limit a full)
            ∙ ap (keep (later k a)) split
            ∙ keep-past (key k) (past k) strict front a ys
                (subst (IsSorted (later k)) split listed-IsSorted)

        build_cursor_result-last :
            (n : ℕ) (ys : List A)
            → length ys ≤ n
            → build_cursor_result k c (take (n + 1) ys) n
              ≡ record { items = ys; next_cursor = none; has_more = false; limit = n }
        unfolding build_cursor_result
        build_cursor_result-last n ys le =
            let few : ltb n (length ys) ≡ false = ground arith in
            ap (λ r. build_cursor_result k c r n) (take-all (n + 1) ys (omega (arith, le)))
            ∙ rw few refl

        build_cursor_result-more :
            (n : ℕ) (ys : List A) (e : Ends (take n ys))
            → n < length ys
            → build_cursor_result k c (take (n + 1) ys) n ≡ record {
              items = take n ys;
              next_cursor = some (cursor_of e.row);
              has_more = true;
              limit = n;
            }
        unfolding build_cursor_result next_of cursor_of
        build_cursor_result-more n ys e lt =
            let more : ltb n (length (take (n + 1) ys)) ≡ true =
              ground (arith, length-take (n + 1) ys) in
            rw more (
              ap
                (λ r. record {
                  items = r;
                  next_cursor = next_of k c (last r);
                  has_more = true;
                  limit = n;
                })
                (take_shorter n ys)
              ∙ ap
                  (λ r. record {
                    items = take n ys;
                    next_cursor = next_of k c r;
                    has_more = true;
                    limit = n;
                  })
                  e.is_last)

        continue : ℕ → CursorResult A → List A
        continue pages page = page.items ++ elim page.next_cursor [
          | none ↦ []
          | some next ↦ follow k c filter rows limit pages next
        ]

        follow-left :
            (pages : ℕ) (cursor : String) (front ys : List A)
            → listed ≡ front ++ ys
            → keep (predicate cursor) listed ≡ ys
            → length ys < pages
            → follow k c filter rows limit pages cursor ≡ ys
        unfolding follow continue page_size
        follow-left zero cursor front ys split left enough = absurd (omega (arith, enough))
        follow-left (suc pages) cursor front ys split left enough =
            ap (continue pages) (get_page-left cursor ys left)
            ∙ elim (Bool-cases (ltb (get_limit limit) (length ys))) [
              | inr few ↦
                  ap (continue pages) (build_cursor_result-last page_size ys (ground arith))
                  ∙ append-nil ys
              | inl more ↦
                  let n = get_limit limit in
                  let e =
                    ends (take n ys) (ground (arith, length-take n ys, get_limit_pos limit)) in
                  let there : listed ≡ (front ++ e.front) ++ e.row ∷ drop n ys =
                    split
                    ∙ ap (λ r. front ++ r)
                        (sym (take-append-drop n ys)
                          ∙ ap (λ r. r ++ drop n ys) e.splits
                          ∙ append_assoc e.front (e.row ∷ []) (drop n ys))
                    ∙ sym (append_assoc front e.front (e.row ∷ drop n ys)) in
                  ap (continue pages) (build_cursor_result-more n ys e (ground arith))
                  ∙ ap (λ r. take n ys ++ r)
                      (follow-left pages (cursor_of e.row) ((front ++ e.front) ++ e.row ∷ [])
                        (drop n ys)
                        (there ∙ sym (append_assoc (front ++ e.front) (e.row ∷ []) (drop n ys)))
                        (keep-cursor_of (front ++ e.front) e.row (drop n ys) there)
                        (ground (arith, length-drop n ys, get_limit_pos limit)))
                  ∙ take-append-drop n ys
            ]

        -- When no two rows share their sort value and id, and no id is empty, the pages that a client
        -- of any limit gets from the first one on, following their cursors, are together the rows
        -- that pass the filters, in order and each once. As many pages as rows, and one, are enough.
        pub follow_complete :
            (pages : ℕ)
            → length (in_order k filter rows) < pages
            → follow k c filter rows limit pages "" ≡ in_order k filter rows
        unfolding apply_keyset_cursor predicate
        follow_complete pages enough =
            follow-left pages "" [] listed refl (keep-everything listed) enough
          where
            keep-everything : (xs : List A) → keep (λ a. true) xs ≡ xs
            keep-everything [] = refl
            keep-everything (x ∷ xs) = ap (λ r. x ∷ r) (keep-everything xs)
