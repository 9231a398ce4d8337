-- ===== src/Retry/Header.antt =====
-- `ParseRetryAfter`: a Retry-After header as a duration. The layouts of HTTP dates are read by Go's
-- `time.Parse`, which is the parameter `parse_time`, from a layout and a text to a time.
use Prim.Native.Nat.{◌^◌}
use huxio.Prelude.{
  ℕ, ◌+◌, ◌-◌, ◌*◌, ◌≤◌, ◌<◌, ◌≡◌, false, ◌&&◌, ap, eq_iff, Bool-cases, inl, inr, Option, none,
  some, List, [], ◌∷◌, String, arith, str_eq, ltb, leb, ◌==◌, if◌then◌else◌, codes, ℤ, pos, negsuc,
  of_bits64,
}

-- The value of a run of decimal digits, and none for anything else.
unfoldable pub digits : ℕ → List ℕ → Option ℕ
digits n [] = some n
digits n (c ∷ cs) =
    let rest = digits (n * 10 + (c - b'0')) cs in if leb b'0' c && leb c b'9' then rest else none

-- `strconv.Atoi` reports an error for no digits, and for a value that no int64 holds.
magnitude : List ℕ → Option ℕ
magnitude [] = none
magnitude (c ∷ cs) = digits 0 (c ∷ cs)

to_int : Option ℕ → Option ℤ
to_int none = none
to_int (some n) = if ltb n (2 ^ 63) then some (pos n) else none

negated : Option ℕ → Option ℤ
negated none = none
negated (some n) =
    if n == 0 then some (pos 0) else if leb n (2 ^ 63) then some (negsuc (n - 1)) else none

unfoldable pub atoi : List ℕ → Option ℤ
unfolding magnitude digits to_int negated
atoi [] = none
atoi (c ∷ cs) =
    if c == b'-'
    then negated (magnitude cs)
    else if c == b'+'
    then to_int (magnitude cs)
    else to_int (magnitude (c ∷ cs))

abbrev pub layouts : List String
layouts =
    "Mon, 02 Jan 2006 15:04:05 GMT" ∷ "Mon, 02 Jan 2006 15:04:05 MST"
    ∷ "Mon, 02 Jan 2006 15:04:05 -0700" ∷ "Monday, 02-Jan-06 15:04:05 MST"
    ∷ "Mon Jan _2 15:04:05 2006" ∷ []

module _ (parse_time : String → String → Option ℕ) where
  -- `when.Sub(now)`, and nil unless it is positive
  time_until : ℕ → ℕ → Option ℤ
  time_until when now = if ltb now when then some (pos (when - now)) else none

  parse_date : List String → String → ℕ → Option ℤ
  unfolding time_until
  parse_date [] header now = none
  parse_date (layout ∷ rest) header now = elim (parse_time layout header) [
    | none ↦ parse_date rest header now
    | some when ↦ time_until when now
  ]

  after_seconds : Option ℤ → String → ℕ → Option ℤ
  unfolding parse_date
  after_seconds none header now = parse_date layouts header now
  after_seconds (some (negsuc n)) header now = none
  after_seconds (some (pos n)) header now = some (of_bits64 (n * 1_000_000_000))

  unfoldable pub parse_retry_after : String → ℕ → Option ℤ
  unfolding atoi after_seconds
  parse_retry_after header now =
      if str_eq header "" then none else after_seconds (atoi (codes header)) header now

not_empty : (header : String) (r : ℤ) → atoi (codes header) ≡ some r → str_eq header "" ≡ false
not_empty header r h = elim (Bool-cases (str_eq header "")) [
  | inl e ↦
      let same : atoi (codes header) ≡ atoi [] =
        ap (λ s. atoi (codes s)) ((eq_iff header "").0 e) in
      absurd (unfold atoi in cc)
  | inr e ↦ e
]

module _ (parse_time : String → String → Option ℕ) (header : String) (now n : ℕ) where
  -- A header of n seconds gives exactly n seconds, if that is below 2 ^ 63 ns.
  pub seconds_exact :
      atoi (codes header) ≡ some (pos n)
      → n ≤ 9_223_372_036
      → parse_retry_after parse_time header now ≡ some (pos (n * 1_000_000_000))
  unfolding parse_retry_after
  seconds_exact h fits = rw (not_empty header _ h, h) (ground arith)

  -- The next n, up to 18446744073, are accepted too and give a negative duration: the product wraps.
  pub seconds_overflow :
      atoi (codes header) ≡ some (pos n)
      → 9_223_372_036 < n
      → n ≤ 18_446_744_073
      → (k : ℕ) × (parse_retry_after parse_time header now ≡ some (negsuc k))
  unfolding parse_retry_after
  seconds_overflow h low high =
      (2 ^ 64 - 1 - n * 1_000_000_000, rw (not_empty header _ h, h) (ground arith))
