-- ===== src/Application/Registration/Continuation.antt =====
-- Repeated deliveries of the continuation tasks
-- (account-managements-service/src/application/user_account).
use account_management_servi.Base.{
  ℕ, Option, [], ◌∷◌, ◌≡◌, refl, true, some, trim, ok, err, arith, ◌⊎◌, inl, inr,
}
use account_management_servi.Task.Data.{Json, NewTask, new_task}
use account_management_servi.Command.{domain, conflict, unavailable}
use account_management_servi.Domain.UserAccount.{
  UserAccount, UserAccountError, CreatedAccount, same_data, already_created,
}
use account_management_servi.Domain.UserAccount as Account
use account_management_servi.Application.Gateways.{
  EmailReservationGateway, UserAccountGateway, RejectsAsAccount, Answer,
}
use account_management_servi.Application.Registration.{
  retry, CreateAccountTaskV1, RecordAccountCreatedTaskV1, creation, create_account, creation_answer,
  record_account_created_payload,
}

-- The account was created with the data of the task.
abbrev pub IsCreatedBy : CreateAccountTaskV1 → UserAccount → Type 0
IsCreatedBy t s =
    (x : CreatedAccount) × (s.created ≡ some x)
    × (same_data x t.account_id t.email (trim t.profile.first_name) (trim t.profile.last_name)
          t.profile.date_of_birth t.profile.validation_date
        ≡ true)

created_rejects :
    (t : CreateAccountTaskV1) (now : ℕ) (s : UserAccount) (e : UserAccountError)
    → IsCreatedBy t s
    → Account.execute s (creation t now) ≡ err e
    → e ≡ already_created
unfolding Account.execute
created_rejects t now s e (x, c, same) h = ground (arith, c, same, h)

creation_answer_repeated :
    {W : Type 0} (x : Answer UserAccountError × W)
    → ((e : UserAccountError) → x.0 ≡ err (domain e) → e ≡ already_created)
    → ((creation_answer x).0 ≡ ok tt) ⊎ ((creation_answer x).0 ≡ err retry)
creation_answer_repeated (ok u, w) h = inl refl
creation_answer_repeated (err (domain e), w) h = ground (arith, h e refl)
creation_answer_repeated (err conflict, w) h = inr refl
creation_answer_repeated (err unavailable, w) h = inr refl

module _ {V W : Type 0} (json : Json V) (email_gateway : EmailReservationGateway V W)
    (account_gateway : UserAccountGateway V W) (account : W → ℕ → UserAccount) where
  -- A creation task whose follow-up task can be built succeeds or asks for a retry, and is never
  -- given up, when the account of its ID was created with the same data, names trimmed, whatever other
  -- accounts there are: over a gateway whose domain rejections of a command are those of the aggregate that
  -- the command addresses, and in which an account that is created stays as it is.
  pub creation_repeated :
      (to_value : RecordAccountCreatedTaskV1 → Option V) (now task_id : ℕ) (t : CreateAccountTaskV1)
      (w : W) (completion : NewTask V)
      → RejectsAsAccount account account_gateway
      → IsCreatedBy t (account w t.account_id)
      → new_task json (record_account_created_payload to_value) task_id (record {
        email = t.email;
        account_id = t.account_id;
        profile = t.profile;
        created_at = now;
      })
        ≡ ok completion
      → let x = create_account json email_gateway account_gateway to_value now task_id t w in
        (x.0 ≡ ok tt) ⊎ (x.0 ≡ err retry)
  unfolding create_account
  creation_repeated to_value now task_id t w completion laws (x, c, same) built =
      let answer = account_gateway.execute_with_outbox (creation t now) (completion ∷ []) w in
      let kept = creation_answer_repeated answer (λ e q.
        let (s, still, h) = laws.of_account (creation t now) (completion ∷ []) w e q in
        created_rejects t now s e (x, still x c, same) h) in
      rw built kept
