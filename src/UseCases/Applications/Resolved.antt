-- ===== src/UseCases/Applications/Resolved.antt =====
-- A new application can be named at once, also while the snapshot does not have it.
use mathlib.Core.Path.{subst}
use huxio.Prelude.{
  ◌≡◌, refl, ap, Bool, true, false, not, ◌||◌, none, some, List, [], ◌∷◌, ◌++◌, String, str_eq,
  eq_iff, any, if◌then◌else◌, arith, All,
}
use huxio.Domain.Endpoint.{Application}
use huxio.Domain.Errors.{Result, ok, err}
use huxio.Store.Messages.{answers, fails, conflict, failed}
use huxio.Store.Applications
use huxio.Store.Applications.{get_application, has_id, same_key, stored}
use huxio.UseCases.{Resolver, resolve, from_repo, by_uid, resolved}
use huxio.UseCases.Applications.{
  ApplicationTables, ApplicationAnswers, CreateApplicationInput, create_application, check_new,
  settle, create_error, new_application,
}

get_application-append :
    (p : Application → Bool) (rows : List Application) (a : Application)
    → All (λ r. p r ≡ false) rows
    → p a ≡ true
    → get_application true p (rows ++ a ∷ []) ≡ answers a
unfolding get_application
get_application-append p [] a none_of h = rw h refl
get_application-append p (r ∷ rows) a none_of h =
    rw none_of.0 (get_application-append p rows a none_of.1 h)

no_id :
    (a : Application) (rows : List Application)
    → any (λ r. str_eq a.id r.id || same_key a r) rows ≡ false
    → All (λ r. has_id a.org_id a.id r ≡ false) rows
no_id a [] h = tt
no_id a (r ∷ rows) h =
    (ground (arith, eq_iff a.id r.id, eq_iff r.id a.id), no_id a rows (ground arith))

-- What a creation that worked says of the table that it leaves.
abbrev pub IsFound : ApplicationTables × Result Application → Type 0
IsFound (s, ok a) = get_application true (has_id a.org_id a.id) s.rows ≡ answers (stored a)
IsFound (s, err e) = Unit

created-IsFound :
    (json_valid : String → Bool) (t : ApplicationAnswers) (i : CreateApplicationInput)
    (s : ApplicationTables)
    → IsFound (create_application json_valid t i s)
unfolding create_application settle Applications.create_application
created-IsFound json_valid t i s = checked (check_new json_valid i) t.write_works refl
  where
    a : Application
    a = new_application t i

    taken : Bool
    taken = any (λ r. str_eq a.id r.id || same_key a r) s.rows

    written :
        (b : Bool)
        → taken ≡ b
        → IsFound (
            settle s i.org_id create_error a
              (if b then fails conflict else answers (s.rows ++ stored a ∷ [])))
    written true e = tt
    written false e =
        get_application-append (has_id a.org_id a.id) s.rows (stored a) (no_id a s.rows e)
          (ground (arith, eq_iff a.org_id a.org_id, eq_iff a.id a.id))

    checked :
        (r : Result (Unit {0})) (w : Bool)
        → t.write_works ≡ w
        → let after : ApplicationTables × Result Application = elim r [
          | err e ↦ (s, err e)
          | ok _ ↦ settle s i.org_id create_error a (
              if not w
              then fails failed
              else if taken
              then fails conflict
              else answers (s.rows ++ stored a ∷ []))
        ] in
          IsFound after
    checked (err e) w at = tt
    checked (ok _) false at = tt
    checked (ok _) true at = written taken refl

-- The resolver of a process that has no snapshot yet.
abbrev pub without_snapshot : List Application → Resolver
without_snapshot rows = record {
  snapshot = none;
  app_repo = some rows;
  by_id_works = true;
  by_uid_works = true;
}

found-resolve :
    (rows : List Application) (a : Application)
    → get_application true (has_id a.org_id a.id) rows ≡ answers (stored a)
    → resolve (without_snapshot rows) a.org_id a.id
      ≡ (ok (record { id = a.id; org_id = a.org_id }), true)
unfolding resolve from_repo by_uid resolved
found-resolve rows a h = rw h refl

created_one : (x a : Application) → ok x ≡ ok a → x ≡ a
created_one x a h = ap (λ r. elim r as (λ y. Application) [ ok y ↦ y | err e ↦ x ]) h

-- After an application was created, its id is resolved to it, before any snapshot is loaded and while
-- the snapshot is asked to reload.
pub resolve-created :
    (json_valid : String → Bool) (t : ApplicationAnswers) (i : CreateApplicationInput)
    (s : ApplicationTables) (a : Application)
    → (create_application json_valid t i s).1 ≡ ok a
    → resolve (without_snapshot (create_application json_valid t i s).0.rows) a.org_id a.id
      ≡ (ok (record { id = a.id; org_id = a.org_id }), true)
resolve-created json_valid t i s a made =
    of_result (create_application json_valid t i s) made (created-IsFound json_valid t i s)
  where
    Resolves : List Application → Application → Type 0
    Resolves rows x =
        resolve (without_snapshot rows) x.org_id x.id
        ≡ (ok (record { id = x.id; org_id = x.org_id }), true)

    of_result :
        (r : ApplicationTables × Result Application) → r.1 ≡ ok a → IsFound r → Resolves r.0.rows a
    of_result (s', err e) made h = absurd (cc)
    of_result (s', ok x) made h =
        subst (Resolves s'.rows) (created_one x a made) (found-resolve s'.rows x h)
