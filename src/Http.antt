-- ===== src/Http.antt =====
-- What the HTTP handlers answer with (account-managements-service/src/presentation/http.rs). A response keeps its
-- status, the two headers that the handlers set, and its JSON body before it is written out.
pub mod Reservations
pub mod Accounts
pub mod Answers
use account_management_servi.Base.{ℕ, Option, none, some, Text, text, Result, ok, err}

pub record ErrorResponse : Type 0 where
  pub code : Text
  pub message : Text

pub record Response (A : Type 0) : Type 0 where
  pub status : ℕ
  pub retry_after : Option Text
  pub cache_control : Option Text
  pub body : Result ErrorResponse A

abbrev pub error_response : {A : Type 0} → ℕ → Text → Text → Response A
error_response status code message = record {
  status = status;
  retry_after = none;
  cache_control = none;
  body = err (record { code = code; message = message });
}

-- The header that a handler adds to a conflict.
abbrev pub with_retry_after : {A : Type 0} → Response A → Response A
with_retry_after r = record r { retry_after = some (text "1") }

abbrev pub success : {A : Type 0} → ℕ → A → Response A
success status a = record { status = status; retry_after = none; cache_control = none; body = ok a }

-- A handler that ends early has an error of its own, `E`; one that calls the service turns the service's
-- error `S` into one of its own.
abbrev pub answered :
    {S E A B W : Type 0}
    → (E → Response B)
    → (S → E)
    → (A → Response B)
    → Result S A × W
    → Response B × W
answered into_response from respond (ok a, w) = (respond a, w)
answered into_response from respond (err e, w) = (into_response (from e), w)

abbrev pub served :
    {S E I A B W : Type 0}
    → (E → Response B)
    → (S → E)
    → (A → Response B)
    → Result E I
    → (I → W → Result S A × W)
    → W
    → Response B × W
served into_response from respond (ok i) service w =
    answered into_response from respond (service i w)
served into_response from respond (err e) service w = (into_response e, w)
