-- ===== src/Domain/Ids.antt =====
-- internal/infrastructure/ids/ids.go: prefixed identifiers that carry their time of creation. The
-- KSUID library is a parameter; a text may hold the separator in any place.
use Prim.Native.Char.{code}
use huxio.Prelude.{ℕ, Option, none, some, String, str_eq, ◌==◌, if◌then◌else◌}

-- `ksuid.NewRandomWithTime` with its random bytes, and the time of a parsed KSUID.
pub record Ksuid : Type 0 where
  pub random_with_time : ℕ → ℕ → Option String
  pub parse : String → Option ℕ

-- `strings.Cut(s, "_")`
unfoldable pub cut : String → Option (String × String)
cut String.[] = none
cut (String.◌∷◌ c s) =
    let rest = cut s in
    if code c == 95
    then some ("", s)
    else elim rest [ none ↦ none | some (a, b) ↦ some (String.◌∷◌ c a, b) ]

-- `prefix + "_" + body`
unfoldable pub tagged : String → String → String
tagged String.[] body = String.◌∷◌ "_" body
tagged (String.◌∷◌ c s) body = String.◌∷◌ c (tagged s body)

-- `NewAt`
unfoldable pub new_at : Ksuid → String → ℕ → ℕ → Option String
new_at k prefix entropy at = elim (k.random_with_time entropy at) [
  | none ↦ none
  | some body ↦ some (tagged prefix body)
]

-- `Split`, where the parsed body is its time.
unfoldable pub split : Ksuid → String → Option (String × ℕ)
unfolding cut
split k id = elim (cut id) [
  | none ↦ none
  | some (prefix, body) ↦
      if str_eq prefix ""
      then none
      else elim (k.parse body) [ none ↦ none | some at ↦ some (prefix, at) ]
]

-- `TimeOf`
unfoldable pub time_of : Ksuid → String → Option ℕ
unfolding split
time_of k id = elim (split k id) [ none ↦ none | some (prefix, at) ↦ some at ]
