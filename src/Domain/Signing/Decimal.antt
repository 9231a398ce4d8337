-- ===== src/Domain/Signing/Decimal.antt =====
-- The decimal text of the timestamp, read back by the digits of a Retry-After.
use Prim.Native.Char.{code}
use Prim.Native.String.{char_at}
use huxio.Prelude.{
  ℕ, zero, suc, ◌+◌, ◌*◌, ◌/◌, ◌%◌, ◌<◌, ◌≡◌, refl, ◌∙◌, ap, Bool-cases, inl, inr, some, String,
  arith, ltb, ltb→lt, ◌-◌, ◌&&◌, leb, codes, true,
}
use huxio.Retry.Header.{digits}
use huxio.Domain.Signing.{decimal, decimal_from}

digit_code : (d : ℕ) → d < 10 → code (char_at "0123456789" d) ≡ 48 + d
digit_code zero h = refl
digit_code (suc zero) h = refl
digit_code (suc (suc zero)) h = refl
digit_code (suc (suc (suc zero))) h = refl
digit_code (suc (suc (suc (suc zero)))) h = refl
digit_code (suc (suc (suc (suc (suc zero))))) h = refl
digit_code (suc (suc (suc (suc (suc (suc zero)))))) h = refl
digit_code (suc (suc (suc (suc (suc (suc (suc zero))))))) h = refl
digit_code (suc (suc (suc (suc (suc (suc (suc (suc zero)))))))) h = refl
digit_code (suc (suc (suc (suc (suc (suc (suc (suc (suc zero))))))))) h = refl
digit_code (suc (suc (suc (suc (suc (suc (suc (suc (suc (suc d)))))))))) h =
    absurd (omega (arith, h))

in_range : (d : ℕ) → d < 10 → (leb b'0' (48 + d) && leb (48 + d) b'9') ≡ true
in_range d h = ground (arith, h)

minus_zero : (d : ℕ) → (48 + d) - b'0' ≡ d
minus_zero d = omega arith

digits_cons :
    (n d : ℕ) (rest : String)
    → d < 10
    → digits n (codes (String.◌∷◌ (char_at "0123456789" d) rest)) ≡ digits (n * 10 + d) (codes rest)
unfolding digits
digits_cons n d rest h =
    rw (digit_code d h, in_range d h) (ap (λ k. digits (n * 10 + k) (codes rest)) (minus_zero d))

-- The text's last digit and the ones before it.
last_digit : (n : ℕ) → n / 10 * 10 + n % 10 ≡ n
last_digit n = omega arith

digits-decimal_from :
    (fuel n : ℕ) (rest : String)
    → n < fuel
    → digits 0 (codes (decimal_from fuel n rest)) ≡ digits n (codes rest)
unfolding decimal_from
digits-decimal_from zero n rest h = absurd (omega (arith, h))
digits-decimal_from (suc fuel) n rest h = elim (Bool-cases (ltb n 10)) [
  | inl small ↦ rw small (
      digits_cons 0 (n % 10) rest (omega arith)
      ∙ ap (λ k. digits k (codes rest)) (omega (arith, ltb→lt n 10 small)))
  | inr big ↦ rw big (
      digits-decimal_from fuel (n / 10) (String.◌∷◌ (char_at "0123456789" (n % 10)) rest)
        (ground (arith, h, big))
      ∙ digits_cons (n / 10) (n % 10) rest (omega arith)
      ∙ ap (λ k. digits k (codes rest)) (last_digit n))
]

-- The timestamp header is the decimal number of the signed time: read back digit by digit, it gives
-- that time, so the digits that the text is made of are enough for every number.
pub digits-decimal : (n : ℕ) → digits 0 (codes (decimal n)) ≡ some n
unfolding decimal digits
digits-decimal n = digits-decimal_from (suc n) n "" (omega arith)
