-- ===== src/Prelude/Order.antt =====
-- Strict total orders, of numbers and of texts, and of pairs: the orders that a sorted list is paged in.
use Prim.Native.Char.{code}
use Prim.Native.String.{String}
use mathlib.Core.Path.{◌≡◌, refl, sym, ap, ◌∙◌}
use mathlib.Core.Logic.{◌⊎◌, inl, inr}
use mathlib.Core.Bool.{Bool, true, false, not, ◌&&◌, ◌||◌}
use native.Mathlib.Omega.{arith}
use text.Mathlib.TextEquality.{Char-path}
use huxio.Prelude.Tests.{ltb, ◌==◌, if◌then◌else◌}

pub record IsStrict {ℓ} {V : Type ℓ} (lt : V → V → Bool) : Type ℓ where
  pub irrefl : (a : V) → lt a a ≡ false
  pub trans : (a b c : V) → lt a b ≡ true → lt b c ≡ true → lt a c ≡ true
  pub connected : (a b : V) → lt a b ≡ false → lt b a ≡ false → a ≡ b

pub ltb-IsStrict : IsStrict ltb
ltb-IsStrict = record {
  irrefl = λ a. ground arith;
  trans = λ a b c p q. ground arith;
  connected = λ a b p q. ground arith;
}

-- By code points, as under the C collation.
unfoldable pub text_before : String → String → Bool
text_before String.[] String.[] = false
text_before String.[] (String.◌∷◌ d t) = true
text_before (String.◌∷◌ c s) String.[] = false
text_before (String.◌∷◌ c s) (String.◌∷◌ d t) =
    let rest = text_before s t in ltb (code c) (code d) || (code c == code d && rest)

text_before_irrefl : (s : String) → text_before s s ≡ false
unfolding text_before
text_before_irrefl String.[] = refl
text_before_irrefl (String.◌∷◌ c s) = ground (arith, text_before_irrefl s)

text_before_trans :
    (s t u : String) → text_before s t ≡ true → text_before t u ≡ true → text_before s u ≡ true
unfolding text_before
text_before_trans String.[] String.[] u p q = absurd (cc)
text_before_trans String.[] (String.◌∷◌ d t) String.[] p q = absurd (cc)
text_before_trans String.[] (String.◌∷◌ d t) (String.◌∷◌ e u) p q = refl
text_before_trans (String.◌∷◌ c s) String.[] u p q = absurd (cc)
text_before_trans (String.◌∷◌ c s) (String.◌∷◌ d t) String.[] p q = absurd (cc)
text_before_trans (String.◌∷◌ c s) (String.◌∷◌ d t) (String.◌∷◌ e u) p q =
    ground (arith, text_before_trans s t u)

text_before_connected : (s t : String) → text_before s t ≡ false → text_before t s ≡ false → s ≡ t
unfolding text_before
text_before_connected String.[] String.[] p q = refl
text_before_connected String.[] (String.◌∷◌ d t) p q = absurd (cc)
text_before_connected (String.◌∷◌ c s) String.[] p q = absurd (cc)
text_before_connected (String.◌∷◌ c s) (String.◌∷◌ d t) p q =
    let same : code c ≡ code d = ground arith in
    let rest = text_before_connected s t (ground arith) (ground arith) in
    λ i. String.◌∷◌ (Char-path c d same i) (rest i)

pub text_before-IsStrict : IsStrict text_before
text_before-IsStrict = record {
  irrefl = text_before_irrefl;
  trans = text_before_trans;
  connected = text_before_connected;
}

-- ASC or DESC
abbrev pub directed {ℓ} : {V : Type ℓ} → Bool → (V → V → Bool) → V → V → Bool
directed desc lt a b = if desc then lt b a else lt a b

pub directed-IsStrict {ℓ} :
    {V : Type ℓ} (desc : Bool) (lt : V → V → Bool) → IsStrict lt → IsStrict (directed desc lt)
directed-IsStrict true lt o = record {
  irrefl = o.irrefl;
  trans = λ a b c p q. o.trans c b a q p;
  connected = λ a b p q. o.connected a b q p;
}
directed-IsStrict false lt o = record {
  irrefl = o.irrefl;
  trans = o.trans;
  connected = o.connected;
}

-- (a, i) < (b, j), as a keyset predicate writes it: a < b OR (a = b AND i < j).
module _ {ℓ} {V W : Type ℓ} (lt : V → V → Bool) (below : W → W → Bool) where
  abbrev pub lex : V × W → V × W → Bool
  lex (a, i) (b, j) = lt a b || (not (lt a b) && not (lt b a) && below i j)

  module _ (o : IsStrict lt) (u : IsStrict below) where
    lex-cases :
        (p q : V × W)
        → lex p q ≡ true
        → (lt p.0 q.0 ≡ true) ⊎ ((p.0 ≡ q.0) × (below p.1 q.1 ≡ true))
    lex-cases (a, i) (b, j) h = cases (lt a b) refl (lt b a) refl
      where
        cases :
            (x : Bool)
            → lt a b ≡ x
            → (y : Bool) → lt b a ≡ y
            → (lt a b ≡ true) ⊎ ((a ≡ b) × (below i j ≡ true))
        cases true e y f = inl e
        cases false e true f = absurd (ground arith)
        cases false e false f = inr (o.connected a b e f, ground arith)

    lex-less : (p q : V × W) → lt p.0 q.0 ≡ true → lex p q ≡ true
    lex-less (a, i) (b, j) h = ground arith

    lex-tied : (p q : V × W) → p.0 ≡ q.0 → below p.1 q.1 ≡ true → lex p q ≡ true
    lex-tied (a, i) (b, j) e h =
        let l : lt a b ≡ false = ap (λ x. lt x b) e ∙ o.irrefl b in
        let m : lt b a ≡ false = ap (λ x. lt b x) e ∙ o.irrefl b in ground arith

    pub lex-IsStrict : IsStrict lex
    lex-IsStrict = record {
      irrefl = λ p. ground (arith, o.irrefl p.0, u.irrefl p.1);
      trans = λ p q r h k. elim (lex-cases p q h) [
        | inl l ↦ elim (lex-cases q r k) [
          | inl m ↦ lex-less p r (o.trans p.0 q.0 r.0 l m)
          | inr (e, m) ↦ lex-less p r (sym (ap (λ x. lt p.0 x) e) ∙ l)
        ]
        | inr (e, l) ↦ elim (lex-cases q r k) [
          | inl m ↦ lex-less p r (ap (λ x. lt x r.0) e ∙ m)
          | inr (f, m) ↦ lex-tied p r (e ∙ f) (u.trans p.1 q.1 r.1 l m)
        ]
      ];
      connected = λ p q h k.
          let e = o.connected p.0 q.0 (ground arith) (ground arith) in
          let l : lt p.0 q.0 ≡ false = ground arith in
          let m : lt q.0 p.0 ≡ false = ground arith in
          let f = u.connected p.1 q.1 (ground arith) (ground arith) in λ i. (e i, f i);
    }
