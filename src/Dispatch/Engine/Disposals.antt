-- ===== src/Dispatch/Engine/Disposals.antt =====
-- The calls of a handler that concern its task: the request, and those that decide what becomes of
-- the task's row. The others are asides.
use huxio.Prelude.{
  ℕ, ◌+◌, ◌≡◌, refl, Bool, none, some, true, false, if◌then◌else◌, List, [], ◌∷◌, ◌++◌, arith, All,
}
use huxio.Dispatch.Engine.{
  Engine, Effect, complete, retry, defer, expand, request, sink, invalidation,
}

-- 1 for a call that decides what becomes of a row.
unfoldable pub weight : Effect → ℕ
weight (complete id) = 1
weight (retry id delay) = 1
weight (defer id delay) = 1
weight (expand ok tasks id) = 1
weight (sink r) = 1
weight _ = 0

-- The rows that a call decides of, by their ids. A record of an attempt decides of the row that its
-- outcome names.
unfoldable pub settled : Effect → List ℕ
settled (complete id) = id ∷ []
settled (retry id delay) = id ∷ []
settled (defer id delay) = id ∷ []
settled (expand ok tasks id) = id ∷ []
settled (sink r) = elim r.task [ none ↦ [] | some outcome ↦ outcome.task_id ∷ [] ]
settled _ = []

unfoldable pub settles : List Effect → List ℕ
unfolding settled
settles [] = []
settles (f ∷ fs) = settled f ++ settles fs

unfoldable pub is_request : Effect → Bool
is_request (request r) = true
is_request _ = false

-- 1 for a call that is no aside.
unfoldable pub deed : Effect → ℕ
unfolding weight is_request
deed f = if is_request f then 1 else weight f

unfoldable pub deeds : List Effect → ℕ
unfolding deed
deeds [] = 0
deeds (f ∷ fs) = deed f + deeds fs

pub deeds-append : (fs gs : List Effect) → deeds (fs ++ gs) ≡ deeds fs + deeds gs
unfolding deeds
deeds-append [] gs = omega arith
deeds-append (f ∷ fs) gs = omega (arith, deeds-append fs gs)

pub invalidation-deeds : (e : Engine) → deeds (invalidation e) ≡ 0
unfolding deeds invalidation deed weight is_request
invalidation-deeds e = ground arith

-- An aside decides nothing.
settled-deed : (f : Effect) → deed f ≡ 0 → settled f ≡ []
unfolding deed weight is_request settled
settled-deed (complete id) h = absurd (cc)
settled-deed (retry id delay) h = absurd (cc)
settled-deed (defer id delay) h = absurd (cc)
settled-deed (expand ok tasks id) h = absurd (cc)
settled-deed (sink r) h = absurd (cc)
settled-deed _ h = refl

-- Asides may stand before the other calls.
pub settles-asides : (fs gs : List Effect) → deeds fs ≡ 0 → settles (fs ++ gs) ≡ settles gs
unfolding deeds settles
settles-asides [] gs h = refl
settles-asides (f ∷ fs) gs h =
    rw (settled-deed f (omega (arith, h)), settles-asides fs gs (omega (arith, h))) refl

-- Asides alone satisfy what every aside does.
pub deeds-All :
    (P : Effect → Type 0) (fs : List Effect)
    → ((f : Effect) → deed f ≡ 0 → P f)
    → deeds fs ≡ 0
    → All P fs
unfolding deeds
deeds-All P [] h idle = tt
deeds-All P (f ∷ fs) h idle = (h f (omega (arith, idle)), deeds-All P fs h (omega (arith, idle)))
