-- ===== src/Retry/Bounds.antt =====
-- The delays that the policy gives.
use huxio.Prelude.{
  ℕ, zero, suc, ◌+◌, ◌*◌, ◌≤◌, ◌<◌, ◌≡◌, refl, ◌↔◌, true, Bool-cases, Option, none, some, List, [],
  ◌∷◌, arith, get_elem?, length, leb, max, Bool, ◌||◌, ◌==◌, if◌then◌else◌, inl, inr, ℤ,
}
use huxio.Retry.{
  Outcome, Policy, max_attempts, overload_floor, clamp, floored, honoured, delay, too_many_requests,
}

get_elem?-some : (xs : List ℕ) (i : ℕ) → i < length xs → (x : ℕ) × (get_elem? xs i ≡ some x)
get_elem?-some [] i h = elim h [ ]
get_elem?-some (x ∷ xs) zero h = (x, refl)
get_elem?-some (x ∷ xs) (suc i) h = get_elem?-some xs i (omega arith)

-- A retry is due after an attempt exactly while the attempts made, that one included, are fewer
-- than `MaxAttempts`, whatever the outcome.
pub delay-none_iff :
    (p : Policy) (attempt : ℕ) (o : Outcome)
    → (delay p attempt o ≡ none) ↔ (max_attempts p ≤ attempt + 1)
unfolding delay max_attempts
delay-none_iff p attempt o = (
  λ h. elim (Bool-cases (leb (length p.schedule) attempt)) [
    | inl done ↦ ground arith
    | inr more ↦ let (d, e) = get_elem?-some p.schedule attempt (ground arith) in ground (arith, e)
  ],
  λ h. ground arith,
)

clamp_bounds : (d : ℤ) (lo hi : ℕ) → lo ≤ hi → (lo ≤ clamp d lo hi) × (clamp d lo hi ≤ hi)
unfolding clamp
clamp_bounds d lo hi h = ground arith

honoured_bounds : (after : Option ℤ) (d : ℕ) → (d ≤ honoured after d) × (honoured after d ≤ 2 * d)
unfolding honoured
honoured_bounds none d = omega arith
honoured_bounds (some after) d = clamp_bounds after d (2 * d) (omega arith)

-- A timeout, or the status of too many requests.
abbrev pub overloaded : Outcome → Bool
overloaded o = o.timeout || o.status_code == too_many_requests

-- A jitter of at most a tenth either way, up to 2 ns: `randomJitter` computes with floats and cuts the
-- fraction off. Durations of more than 2 ^ 52 ns, or 52 days, are left out.
abbrev pub IsTenth : (ℕ → ℕ) → Type 0
IsTenth jitter =
    (t : ℕ)
    → t ≤ 4_503_599_627_370_496
    → (9 * t ≤ 10 * (jitter t + 2)) × (10 * jitter t ≤ 11 * t + 20)

-- With such a jitter, whatever Retry-After the endpoint sends, a retry waits for at least nine tenths
-- and at most 2.2 times the step of the schedule, or of the floor of 30 s where that is more and the
-- endpoint was overloaded, up to 2 ns. The step is at most 2 ^ 51 ns, or 26 days, so that the double of
-- it does not overflow.
pub delay_bounds :
    (p : Policy) (attempt : ℕ) (o : Outcome) (d wait : ℕ)
    → IsTenth p.jitter
    → d ≤ 2_251_799_813_685_248
    → get_elem? p.schedule attempt ≡ some d
    → delay p attempt o ≡ some wait
    → let step = if overloaded o then max d overload_floor else d in
      (9 * step ≤ 10 * (wait + 2)) × (10 * wait ≤ 22 * step + 20)
unfolding delay floored
delay_bounds p attempt o d wait j low h w =
    let t = honoured o.retry_after (floored o d) in
    ground (arith, j t, honoured_bounds o.retry_after (floored o d))

-- After a timeout or a 429 the retry waits for at least 27 s less 2 ns, a tenth below the floor of 30 s,
-- with the jitter and a step as in the last theorem.
pub delay_overload :
    (p : Policy) (attempt : ℕ) (o : Outcome) (d wait : ℕ)
    → IsTenth p.jitter
    → d ≤ 2_251_799_813_685_248
    → get_elem? p.schedule attempt ≡ some d
    → overloaded o ≡ true
    → delay p attempt o ≡ some wait
    → 26_999_999_998 ≤ wait
delay_overload p attempt o d wait j small h over w =
    let low = (delay_bounds p attempt o d wait j small h w).0 in ground (arith, over)
