-- ===== src/Diagnostics/Redaction.antt =====
-- What the log lines of failed commands hold (cqrs-runtime/src/diagnostics.rs).
use account_management_servi.Base.{
  Bool, true, false, ◌&&◌, Option, none, some, List, [], ◌∷◌, Text, text, is_empty, length, ◌≡◌,
  ◌==◌, if◌then◌else◌, ℕ, In, arith, refl, inl, inr,
}
use account_management_servi.Command.{
  AggregateError, user_error, aggregate_conflict, database_connection_error, deserialization_error,
  unexpected_error,
}
use account_management_servi.Task.Dispatcher.{all_safe, safe_type}
use account_management_servi.Diagnostics.{
  log_sqlx_failure, SqlxError, io, tls, pool_timed_out, pool_closed, decode, column_decode,
  configuration, other, database, sqlx_kind, all_code, sqlstate, Source, sqlx, foreign, LogLine,
  log_command_failure, log_aggregate_error,
}

-- A name that is not empty and has only ASCII letters, digits and underscores.
abbrev pub IsName : Text → Type 0
IsName t = (is_empty t ≡ false) × (all_safe t ≡ true)

abbrev pub IsState : Option Text → Type 0
IsState none = Unit
IsState (some code) = (length code ≡ 5) × (all_code code ≡ true)

abbrev pub categories : List Text
categories = text "connection" ∷ text "deserialization" ∷ text "unexpected" ∷ []

abbrev pub storage_categories : List Text
storage_categories =
    text "io"
    ∷ text "tls"
    ∷ text "database"
    ∷ text "pool_timeout"
    ∷ text "pool_closed"
    ∷ text "decode"
    ∷ text "configuration"
    ∷ text "other"
    ∷ []

abbrev pub IsStorage : Option (Text × Option Text) → Type 0
IsStorage none = Unit
IsStorage (some (kind, state)) = In kind storage_categories × IsState state

abbrev pub IsRedacted : LogLine → Type 0
IsRedacted l = IsName l.aggregate_type × (In l.category categories × IsStorage l.storage)

IsName-choice :
    (c : ℕ) (cs : List ℕ) (b : Bool)
    → all_safe (c ∷ cs) ≡ b
    → IsName (if b then c ∷ cs else text "unknown")
IsName-choice c cs true h = (refl, h)
IsName-choice c cs false h = (refl, refl)

safe_type-IsName : (t : Text) → IsName (safe_type t)
unfolding safe_type
safe_type-IsName [] = (refl, refl)
safe_type-IsName (c ∷ cs) = IsName-choice c cs (all_safe (c ∷ cs)) refl

sqlx_kind-In : (e : SqlxError) → In (sqlx_kind e) storage_categories
unfolding sqlx_kind
sqlx_kind-In io = inl refl
sqlx_kind-In tls = inr (inl refl)
sqlx_kind-In (database code) = inr (inr (inl refl))
sqlx_kind-In pool_timed_out = inr (inr (inr (inl refl)))
sqlx_kind-In pool_closed = inr (inr (inr (inr (inl refl))))
sqlx_kind-In decode = inr (inr (inr (inr (inr (inl refl)))))
sqlx_kind-In column_decode = inr (inr (inr (inr (inr (inl refl)))))
sqlx_kind-In configuration = inr (inr (inr (inr (inr (inr (inl refl))))))
sqlx_kind-In other = inr (inr (inr (inr (inr (inr (inr (inl refl)))))))

IsState-choice :
    (code : Text) (b : Bool)
    → ((length code == 5) && all_code code) ≡ b
    → IsState (if b then some code else none)
IsState-choice code true h = ground (arith, h)
IsState-choice code false h = tt

sqlstate-IsState : (e : SqlxError) → IsState (sqlstate e)
unfolding sqlstate
sqlstate-IsState (database (some code)) =
    IsState-choice code ((length code == 5) && all_code code) refl
sqlstate-IsState (database none) = tt
sqlstate-IsState io = tt
sqlstate-IsState tls = tt
sqlstate-IsState pool_timed_out = tt
sqlstate-IsState pool_closed = tt
sqlstate-IsState decode = tt
sqlstate-IsState column_decode = tt
sqlstate-IsState configuration = tt
sqlstate-IsState other = tt

-- Of an error of sqlx the log has a fixed word and a code, for any operation.
log_sqlx_failure-IsStorage :
    (operation : Text) (e : SqlxError)
    → let line = log_sqlx_failure operation e in IsStorage (some (line.category, line.state))
unfolding log_sqlx_failure
log_sqlx_failure-IsStorage operation e = (sqlx_kind-In e, sqlstate-IsState e)

log_command_failure-IsRedacted :
    (ty category : Text) (chain : List Source)
    → In category categories
    → IsRedacted (log_command_failure ty category chain)
unfolding log_command_failure
log_command_failure-IsRedacted ty category [] m = (safe_type-IsName ty, (m, tt))
log_command_failure-IsRedacted ty category (sqlx e ∷ chain) m =
    (safe_type-IsName ty, (m, (sqlx_kind-In e, sqlstate-IsState e)))
log_command_failure-IsRedacted ty category (foreign message ∷ chain) m =
    log_command_failure-IsRedacted ty category chain m

-- What is logged of the error that ends a command: nothing of a user error or an aggregate conflict, and
-- of any other error one line that is redacted.
abbrev pub LogsOf : {D : Type 0} → AggregateError D → Option LogLine → Type 0
LogsOf (user_error e) line = line ≡ none
LogsOf aggregate_conflict line = line ≡ none
LogsOf database_connection_error line = (l : LogLine) × ((line ≡ some l) × IsRedacted l)
LogsOf deserialization_error line = (l : LogLine) × ((line ≡ some l) × IsRedacted l)
LogsOf unexpected_error line = (l : LogLine) × ((line ≡ some l) × IsRedacted l)

-- Whatever the aggregate is called, and whatever texts the errors in the source chain of a failed command
-- carry: a user error and an aggregate conflict log nothing, and any other error logs one line. The
-- aggregate's name in it is not empty and has only ASCII letters, digits and underscores, its category and
-- the category of a storage error are among fixed words, and a database code in it has five characters, all
-- upper-case ASCII letters or digits.
pub log_aggregate_error-IsRedacted :
    {D : Type 0} (ty : Text) (e : AggregateError D) (chain : List Source)
    → LogsOf e (log_aggregate_error ty e chain)
unfolding log_aggregate_error
log_aggregate_error-IsRedacted ty (user_error e) chain = refl
log_aggregate_error-IsRedacted ty aggregate_conflict chain = refl
log_aggregate_error-IsRedacted ty database_connection_error chain =
    (_, (refl, log_command_failure-IsRedacted ty _ chain (inl refl)))
log_aggregate_error-IsRedacted ty deserialization_error chain =
    (_, (refl, log_command_failure-IsRedacted ty _ chain (inr (inl refl))))
log_aggregate_error-IsRedacted ty unexpected_error chain =
    (_, (refl, log_command_failure-IsRedacted ty _ chain (inr (inr (inl refl)))))
