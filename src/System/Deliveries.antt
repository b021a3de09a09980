-- ===== src/System/Deliveries.antt =====
-- The deliveries of published tasks over a sound store
-- (account-managements-service/src/application/user_account/tasks, startup/wiring.rs).
use account_management_servi.Base.{ℕ, refl, [], ◌∷◌, Text, In, sym, ap, ◌∙◌, ℤ}
use mathlib.Core.Path.{subst}
use account_management_servi.Task.Data.{NewTask, TaskAttempt, new_task, new_format}
use account_management_servi.Task.Dispatcher.{dispatch}
use account_management_servi.Domain.EmailReservation.{record_account_created}
use account_management_servi.Application.Registration.{
  CreateAccountTaskV1, RecordAccountCreatedTaskV1, record_account_created_payload, create_account,
  record_created, creation,
}
use account_management_servi.Application.Tasks.{
  Services, into_delivery, handle_creation, handle_record,
}
use account_management_servi.Application.Tasks.Wiring.{record_format, dispatcher, delivery_of}
use account_management_servi.Application.Tasks.Effects.{
  dispatch-Effect, nothing, sent, created, recorded,
}
use account_management_servi.Application.Tasks.Published.{ReadsBack, new_task-eq_ok}
use account_management_servi.System.{Store, Same, RunsOn}
use account_management_servi.System.Sound.{HasAccepted, IsAccountOf, IsSound}
use account_management_servi.System.Kept.{Same-IsSound}
use account_management_servi.System.Commands.{ran-IsSound}
use account_management_servi.System.Creations.{ran_create-IsSound, completion_of}
use account_management_servi.System.Steps.{
  creation_answer-world, record_answer-world, with_task_keeps,
}

module _ {V W : Type 0} (store : Store V W) (uuid : ℕ → Text) (services : Services V W)
    (runs : RunsOn store uuid services) (reads_back : ReadsBack services) where
  abbrev Sound : W → Type 0
  Sound = IsSound store uuid services

  creation-IsSound :
      (t : CreateAccountTaskV1) (delivery : TaskAttempt V) (w : W)
      → HasAccepted (store.reservation w t.email).phase t.account_id t.profile
      → Sound w
      → Sound (handle_creation services t delivery w).1
  unfolding handle_creation create_account new_format
  creation-IsSound t delivery w accepted h =
      let now = services.clock w in
      let p = record_account_created_payload services.write_record in
      with_task_keeps Sound _ (new_task services.json p (services.task_id w) (completion_of t now))
        _ w h
        λ task b.
          let (v, q, made) =
            new_task-eq_ok services.json p record_format (services.task_id w) (completion_of t now)
              task refl b in
          subst Sound (sym (creation_answer-world _)) (
            ran_create-IsSound store uuid services t now task w _
              (runs.create (creation t now) (task ∷ []) w) (ap (λ (x : NewTask V). x.format) made)
              (ap (λ (x : NewTask V). services.read_record x.payload) made
                ∙ reads_back.recording (completion_of t now) v q)
              accepted h)

  record-IsSound :
      (t : RecordAccountCreatedTaskV1) (delivery : TaskAttempt V) (w : W)
      → IsAccountOf
          (store.account w (uuid t.account_id))
          t.email
          t.account_id
          t.profile
          t.created_at
      → Sound w
      → Sound (handle_record services t delivery w).1
  unfolding handle_record record_created
  record-IsSound t delivery w account h =
      let c = record_account_created t.email t.account_id t.profile t.created_at in
      subst Sound (sym (record_answer-world _)) (
        ran-IsSound store uuid services c [] w _ (runs.execute c w) account (λ a task m. absurd m)
          h)

  pub deliver-IsSound :
      (decimal : ℤ → Text) (task : NewTask V) (number : ℤ) (w : W)
      → In task (store.published w)
      → Sound w
      → Sound (dispatch (dispatcher services decimal) (delivery_of task number) w).1
  deliver-IsSound decimal task number w m h =
      let w' = (dispatch (dispatcher services decimal) (delivery_of task number) w).1 in
      elim (dispatch-Effect services decimal (delivery_of task number) w) [
        | nothing e ↦ subst Sound (sym e) h
        | sent t e ↦
            Same-IsSound store uuid services w w'
              (subst (Same store w) (sym e)
                (runs.send (into_delivery t) (delivery_of task number) w))
              h
        | created t f r e ↦
            subst Sound (sym e)
              (creation-IsSound t (delivery_of task number) w ((h.tasks task m).creates t f r) h)
        | recorded t f r e ↦
            subst Sound (sym e)
              (record-IsSound t (delivery_of task number) w ((h.tasks task m).records t f r).1 h)
      ]
