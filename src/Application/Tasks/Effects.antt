-- ===== src/Application/Tasks/Effects.antt =====
-- What a delivery makes the service's dispatcher do
-- (account-managements-service/src/startup/wiring.rs, cqrs-runtime/src/task/handling).
use account_management_servi.Base.{
  ℕ, none, some, ◌≡◌, refl, Bool, true, false, not, Bool-cases, Option-cases, inl, inr, Text,
  if◌then◌else◌, ok, err, ℤ, text_eq, sym, ap, ◌∙◌, Outcome,
}
use mathlib.Core.Path.{subst}
use account_management_servi.Task.Data.{TaskAttempt, TaskFormat, format_eq}
use account_management_servi.Task.Data.Checked.{format_eq_iff}
use account_management_servi.Task.Dispatcher.{
  TaskHandlerError, TaskHandler, TaskDispatcher, dispatch, outcome, get, invoke_json,
}
use account_management_servi.Domain.EmailReservation.Handlers.{is_code}
use account_management_servi.Application.Reservations.{SendVerificationCodeTaskV1}
use account_management_servi.Application.Registration.{
  CreateAccountTaskV1, RecordAccountCreatedTaskV1,
}
use account_management_servi.Application.Tasks.{
  Services, TaskResult, handle_send, handle_creation, handle_record, into_delivery,
}
use account_management_servi.Application.Tasks.Wiring.{
  send_format, create_format, record_format, dispatcher, attempt, sends_at, creates_at, records_at,
}

module _ {V W : Type 0} (services : Services V W) (decimal : ℤ → Text) where
  abbrev the_dispatcher : TaskDispatcher V W
  the_dispatcher = dispatcher services decimal

  -- What a delivery did to the world: nothing, the sender's work, or one of the two continuations on the
  -- payload that was read.
  pub data Effect (delivery : TaskAttempt V) (w w' : W) : Type 0 where
    nothing : w' ≡ w → Effect delivery w w'
    sent :
        (t : SendVerificationCodeTaskV1)
        → w' ≡ (services.sender (into_delivery t) delivery w).1
        → Effect delivery w w'
    created :
        (t : CreateAccountTaskV1)
        → delivery.format ≡ create_format
        → services.read_creation delivery.payload ≡ some t
        → w' ≡ (handle_creation services t delivery w).1
        → Effect delivery w w'
    recorded :
        (t : RecordAccountCreatedTaskV1)
        → delivery.format ≡ record_format
        → services.read_record delivery.payload ≡ some t
        → w' ≡ (handle_record services t delivery w).1
        → Effect delivery w w'

  pub outcome-world : (x : TaskResult W) → (outcome x).1 ≡ x.1
  outcome-world (ok u, w) = refl
  outcome-world (err e, w) = refl

  handle_send-Effect :
      (t : SendVerificationCodeTaskV1) (delivery : TaskAttempt V) (w : W)
      → Effect delivery w (handle_send services.sender t delivery w).1
  unfolding handle_send
  handle_send-Effect t delivery w = elim (Bool-cases (is_code t.verification_code)) [
    | inl code ↦ rw code (sent t refl)
    | inr wrong ↦ rw wrong (nothing refl)
  ]

  either_world :
      (b : Bool) (x y : TaskResult W) (w : W) → x.1 ≡ w → y.1 ≡ w → (if b then x else y).1 ≡ w
  either_world true x y w p q = p
  either_world false x y w p q = q

  invoke_json-unreadable :
      {P : Type 0} (h : TaskHandler V W P) (f : TaskFormat) (delivery : TaskAttempt V) (w : W)
      → h.deserialize delivery.payload ≡ none
      → (invoke_json decimal h f delivery w).1 ≡ w
  unfolding invoke_json
  invoke_json-unreadable h f delivery w e =
      rw e (either_world (not (format_eq delivery.format f)) _ _ w refl refl)

  module _ (id : ℕ) (payload metadata : V) (number : ℤ) (w : W) where
    abbrev DispatchedTo : TaskFormat → Type 0
    DispatchedTo f =
        Effect (attempt id f payload metadata number) w
          (dispatch the_dispatcher (attempt id f payload metadata number) w).1

    to_effect :
        (f : TaskFormat) (x : TaskResult W)
        → dispatch the_dispatcher (attempt id f payload metadata number) w ≡ outcome x
        → Effect (attempt id f payload metadata number) w x.1
        → DispatchedTo f
    to_effect f x q h =
        subst (Effect (attempt id f payload metadata number) w)
          (sym (ap (λ (y : Outcome TaskHandlerError (Unit {0}) × W). y.1) q ∙ outcome-world x)) h

    unreadable :
        {P : Type 0} (h : TaskHandler V W P) (f : TaskFormat)
        → dispatch the_dispatcher (attempt id f payload metadata number) w
          ≡ outcome (invoke_json decimal h f (attempt id f payload metadata number) w)
        → h.deserialize payload ≡ none
        → DispatchedTo f
    unreadable h f q e =
        to_effect f _ q
          (nothing (invoke_json-unreadable h f (attempt id f payload metadata number) w e))

    unsupported :
        (f : TaskFormat)
        → format_eq record_format f ≡ false
        → format_eq create_format f ≡ false
        → format_eq send_format f ≡ false
        → DispatchedTo f
    unfolding dispatch get format_eq text_eq
    unsupported f r c s = rw (r, c, s) (nothing refl)

    DispatchedTo-send : DispatchedTo send_format
    unfolding dispatch get format_eq text_eq
    DispatchedTo-send = elim (Option-cases (services.read_code payload)) [
      | inl e ↦ unreadable _ send_format refl e
      | inr (t, e) ↦
          to_effect send_format _ (sends_at services decimal id payload metadata number w t e)
            (handle_send-Effect t _ w)
    ]

    DispatchedTo-create : DispatchedTo create_format
    unfolding dispatch get format_eq text_eq
    DispatchedTo-create = elim (Option-cases (services.read_creation payload)) [
      | inl e ↦ unreadable _ create_format refl e
      | inr (t, e) ↦
          to_effect create_format _ (creates_at services decimal id payload metadata number w t e)
            (created t refl e refl)
    ]

    DispatchedTo-record : DispatchedTo record_format
    unfolding dispatch get format_eq text_eq
    DispatchedTo-record = elim (Option-cases (services.read_record payload)) [
      | inl e ↦ unreadable _ record_format refl e
      | inr (t, e) ↦
          to_effect record_format _ (records_at services decimal id payload metadata number w t e)
            (recorded t refl e refl)
    ]

    dispatched : (f : TaskFormat) → DispatchedTo f
    dispatched f = elim (Bool-cases (format_eq record_format f)) [
      | inl r ↦ subst DispatchedTo ((format_eq_iff record_format f).0 r) DispatchedTo-record
      | inr nr ↦ elim (Bool-cases (format_eq create_format f)) [
        | inl c ↦ subst DispatchedTo ((format_eq_iff create_format f).0 c) DispatchedTo-create
        | inr nc ↦ elim (Bool-cases (format_eq send_format f)) [
          | inl s ↦ subst DispatchedTo ((format_eq_iff send_format f).0 s) DispatchedTo-send
          | inr ns ↦ unsupported f nr nc ns
        ]
      ]
    ]

  -- Whatever is delivered, the service's dispatcher does nothing, or the one thing that the format and
  -- the payload of the delivery ask for.
  pub dispatch-Effect :
      (delivery : TaskAttempt V) (w : W) → Effect delivery w (dispatch the_dispatcher delivery w).1
  dispatch-Effect delivery w =
      dispatched delivery.id delivery.payload delivery.metadata delivery.number w delivery.format
