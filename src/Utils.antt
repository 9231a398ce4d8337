-- ===== src/Utils.antt =====
-- internal/utils: the helpers on texts and lists that belong to no component.
use Prim.Native.Char.{code}
use huxio.Prelude.{
  ℕ, Bool, true, false, not, ◌&&◌, ◌||◌, Option, none, some, List, [], ◌∷◌, String, leb, ◌==◌,
  if◌then◌else◌, any, codes, str_eq, text_mem,
}

-- unicode.IsSpace
is_space : ℕ → Bool
is_space c =
    (leb 9 c && leb c 13)
    || any (λ w. w == c)
        (32 ∷ 0x85 ∷ 0xa0 ∷ 0x1680 ∷ 0x2028 ∷ 0x2029 ∷ 0x202f ∷ 0x205f ∷ 0x3000 ∷ [])
    || (leb 0x2000 c && leb c 0x200a)

-- `utils.IsBlank`
unfoldable pub is_blank : String → Bool
unfolding is_space
is_blank s = not (any (λ c. not (is_space c)) (codes s))

-- `utils.Fallback`
unfoldable pub fallback : String → String → String
unfolding is_blank
fallback s d = if is_blank s then d else s

trim_left : String → String
unfolding is_space
trim_left String.[] = String.[]
trim_left (String.◌∷◌ c s) =
    let rest = trim_left s in if is_space (code c) then rest else String.◌∷◌ c s

trim_right : String → String
unfolding is_space
trim_right String.[] = String.[]
trim_right (String.◌∷◌ c s) =
    let rest = trim_right s in
    if is_space (code c) && str_eq rest "" then String.[] else String.◌∷◌ c rest

-- `utils.NilIfBlank`, with `strings.TrimSpace`
unfoldable pub nil_if_blank : String → Option String
unfolding is_blank trim_left trim_right
nil_if_blank s = if is_blank s then none else some (trim_right (trim_left s))

-- The loop of `Unique`, with what has been seen.
unique_texts_from : List String → List String → List String
unique_texts_from seen [] = []
unique_texts_from seen (x ∷ xs) = elim (text_mem x seen) [
  | true ↦ unique_texts_from seen xs
  | false ↦ x ∷ unique_texts_from (x ∷ seen) xs
]

-- `utils.Unique` on texts
unfoldable pub unique_texts : List String → List String
unfolding unique_texts_from
unique_texts xs = unique_texts_from [] xs
