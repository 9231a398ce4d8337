-- ===== src/UseCases/Messages.antt =====
-- internal/application/usecases/message_usecase.go with `GetMessage` of message_repo.go: the look-up of one
-- message, in the day partition that its id names.
mod Examples
use huxio.Prelude.{
  ◌≡◌, refl, ℕ, ◌+◌, ◌-◌, ◌*◌, ◌%◌, Bool, true, false, not, ◌&&◌, Option, none, some, List, [], ◌∷◌,
  String, str_eq, leb, ltb, if◌then◌else◌, is_set, arith, sym, All, eq_iff,
}
use huxio.Dispatch.Breaker.{second}
use huxio.Domain.Errors.{Result, ok, err, new_not_found_error, new_internal_error}
use huxio.Domain.Ids.{Ksuid, time_of}
use huxio.Store.Messages.{Message, Answer, answers, fails, not_found, failed}
use huxio.UseCases.{AppRef, Resolver, resolve}

pub record GetMessageInput : Type 0 where
  pub org_id : String
  pub app_id_or_uid : String
  pub msg_id : String

abbrev pub day : ℕ
day = 24 * 3600 * second

-- `Truncate` to 24 hours, from the epoch, which begins at a midnight.
unfoldable pub start_of_day : ℕ → ℕ
start_of_day at = at - at % day

-- The filter on the creation time, if the id tells one.
unfoldable pub in_window : Option ℕ → ℕ → Bool
unfolding start_of_day
in_window none created_at = true
in_window (some at) created_at =
    leb (start_of_day at) created_at && ltb created_at (start_of_day at + day)

-- The filters of `GetMessage`, but for the window.
abbrev pub asked : String → String → Message → Bool
asked app_id id m = str_eq m.id id && str_eq m.app_id app_id && not (is_set m.deleted_at)

unfoldable pub wanted : Ksuid → String → String → Message → Bool
unfolding in_window
wanted k app_id id m = asked app_id id m && in_window (time_of k id) m.created_at

-- ORDER BY created_at DESC … LIMIT 1, among rows of one id, whose times of creation are different.
unfoldable pub newest : (Message → Bool) → List Message → Option Message
newest p [] = none
newest p (m ∷ rows) =
    let rest = newest p rows in
    if not (p m) then rest else elim rest [
      | none ↦ some m
      | some n ↦ if ltb m.created_at n.created_at then some n else some m
    ]

-- `MessageRepo.GetMessage`
unfoldable pub select_message : Bool → (Message → Bool) → List Message → Answer Message
unfolding newest
select_message works p rows =
    if not works
    then fails failed
    else elim (newest p rows) [ none ↦ fails not_found | some m ↦ answers m ]

abbrev pub reported : Answer Message → Result Message
reported (answers m) = ok m
reported (fails not_found) = err (new_not_found_error "message")
reported (fails e) = err new_internal_error

-- The message of an application that is known.
unfoldable pub message_in : Ksuid → Bool → String → Result AppRef → List Message → Result Message
unfolding select_message wanted
message_in k works id (err e) rows = err e
message_in k works id (ok app) rows = reported (select_message works (wanted k app.id id) rows)

-- `MessageUseCase.GetMessage`
unfoldable pub get_message :
    Ksuid → Bool → Resolver → GetMessageInput → List Message → Result Message
unfolding message_in
get_message k works r i rows =
    message_in k works i.msg_id (resolve r i.org_id i.app_id_or_uid).0 rows

-- The time of creation lies in the window that an id with this time gives.
in_window_self : (at : ℕ) → in_window (some at) at ≡ true
unfolding in_window start_of_day
in_window_self at = grind arith

-- For a message whose id tells its time of creation, the window leaves out nothing that is asked for.
wanted_asked :
    (k : Ksuid) (app_id id : String) (m : Message)
    → time_of k m.id ≡ some m.created_at
    → wanted k app_id id m ≡ asked app_id id m
unfolding wanted
wanted_asked k app_id id m dated = tested (str_eq m.id id) refl
  where
    and_true : (b : Bool) → (b && true) ≡ b
    and_true true = refl
    and_true false = refl

    tested : (b : Bool) → str_eq m.id id ≡ b → wanted k app_id id m ≡ asked app_id id m
    tested false e = rw (wanted, e) refl
    tested true e =
        let same : m.id ≡ id = (eq_iff m.id id).0 e in
        let at : time_of k id ≡ some m.created_at = rw (sym same) dated in
        rw (wanted, at, in_window_self m.created_at) (and_true (asked app_id id m))

newest_asked :
    (k : Ksuid) (app_id id : String) (rows : List Message)
    → All (λ m. time_of k m.id ≡ some m.created_at) rows
    → newest (wanted k app_id id) rows ≡ newest (asked app_id id) rows
unfolding newest
newest_asked k app_id id [] ds = refl
newest_asked k app_id id (m ∷ rows) (dated, rest) =
    rw (wanted_asked k app_id id m dated, newest_asked k app_id id rows rest) refl

-- `GetMessage` by the whole table, without the window.
abbrev pub full_scan : Bool → String → Result AppRef → List Message → Result Message
full_scan works id (err e) rows = err e
full_scan works id (ok app) rows = reported (select_message works (asked app.id id) rows)

-- Where every stored message's id tells its time of creation, reading one day only gives the same
-- answer as reading the whole table.
pub get_message-full_scan :
    (k : Ksuid) (works : Bool) (r : Resolver) (i : GetMessageInput) (rows : List Message)
    → All (λ m. time_of k m.id ≡ some m.created_at) rows
    → get_message k works r i rows
      ≡ full_scan works i.msg_id (resolve r i.org_id i.app_id_or_uid).0 rows
unfolding get_message message_in select_message
get_message-full_scan k works r i rows dated = resolved (resolve r i.org_id i.app_id_or_uid).0
  where
    resolved :
        (x : Result AppRef) → message_in k works i.msg_id x rows ≡ full_scan works i.msg_id x rows
    resolved (err e) = refl
    resolved (ok app) = rw (newest_asked k app.id i.msg_id rows dated) refl
