-- ===== src/Store/Filters.antt =====
-- internal/domain/repositories/query.go, and the predicates that query_builder.go renders from it,
-- with their meaning in SQL: a comparison with a NULL is not true.
use huxio.Prelude.{
  ℕ, Bool, true, false, not, ◌&&◌, Option, none, some, List, [], ◌∷◌, ltb, ◌==◌, ℤ, pos, ltb_ℤ,
  pos_part, if◌then◌else◌, any, is_set,
}

-- A column's type, with `=`, `<` and ILIKE.
pub record Column (A : Type 0) : Type 0 where
  pub eq : A → A → Bool
  pub lt : A → A → Bool
  pub ilike : A → A → Bool

pub record Filter (A : Type 0) : Type 0 where
  pub is : Option A
  pub is_not : Option A
  pub among : List A
  pub not_among : List A
  pub icontains : Option A
  pub exists : Option Bool
  pub gt : Option A
  pub gte : Option A
  pub lt : Option A
  pub lte : Option A

module _ {A : Type 0} where
  abbrev pub no_filter : Filter A
  no_filter = record {
    is = none;
    is_not = none;
    among = [];
    not_among = [];
    icontains = none;
    exists = none;
    gt = none;
    gte = none;
    lt = none;
    lte = none;
  }

  -- `Eq`
  abbrev pub equal_to : A → Filter A
  equal_to v = record no_filter { is = some v }

  -- `AnyOf`
  abbrev pub any_of : List A → Filter A
  any_of vs = record no_filter { among = vs }

  -- A predicate of a filter that is set, on a value that may be NULL.
  abbrev pub holds : {B : Type 0} → Option B → (B → A → Bool) → Option A → Bool
  holds none p v = true
  holds (some b) p none = false
  holds (some b) p (some a) = p b a

  abbrev pub some_of : List A → Option (List A)
  some_of [] = none
  some_of (v ∷ vs) = some (v ∷ vs)

  abbrev pub exists_holds : Option Bool → Option A → Bool
  exists_holds none v = true
  exists_holds (some true) v = is_set v
  exists_holds (some false) v = not (is_set v)

  -- `ApplyFilter`: the conjunction of what the filter has.
  unfoldable pub passes_filter : Column A → Filter A → Option A → Bool
  passes_filter c f v =
      exists_holds f.exists v
      && holds f.is (λ b a. c.eq a b) v
      && holds f.is_not (λ b a. not (c.eq a b)) v
      && holds (some_of f.among) (λ bs a. any (c.eq a) bs) v
      && holds (some_of f.not_among) (λ bs a. not (any (c.eq a) bs)) v
      && holds f.icontains (λ b a. c.ilike a b) v
      && holds f.gt (λ b a. c.lt b a) v
      && holds f.gte (λ b a. not (c.lt a b)) v
      && holds f.lt (λ b a. c.lt a b) v
      && holds f.lte (λ b a. not (c.lt b a)) v

  -- A nil filter contributes nothing.
  abbrev pub passes : Column A → Option (Filter A) → A → Bool
  passes c none v = true
  passes c (some f) v = passes_filter c f (some v)

abbrev pub times : Column ℕ
times = record { eq = λ a b. a == b; lt = ltb; ilike = λ a b. false }

abbrev pub default_page_size : ℕ
default_page_size = 20

abbrev pub max_page_size : ℕ
max_page_size = 100

-- `CursorPagination.GetLimit`
unfoldable pub get_limit : ℤ → ℕ
get_limit limit =
    if not (ltb_ℤ (pos 0) limit)
    then default_page_size
    else if ltb_ℤ (pos max_page_size) limit
    then max_page_size
    else pos_part limit
