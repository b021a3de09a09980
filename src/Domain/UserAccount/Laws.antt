-- ===== src/Domain/UserAccount/Laws.antt =====
-- Creation of an account, and its repeats (account-managements-service/src/domain/user_account).
use account_management_servi.Base.{
  ℕ, true, is_empty, ltb, text_eq_refl, ◌≤◌, ◌≡◌, refl, ◌≢◌, ◌⊎◌, inl, inr, some, [], arith, Text,
  ok, err, text_eq_iff, Bool-cases, trim,
}
use account_management_servi.Domain.UserAccount.{
  CreatedAccount, UserAccount, create_account, UserAccountEvent, account_created, UserAccountError,
  empty_first_name, empty_last_name, future_date_of_birth, already_exists_with_different_data,
  already_created, same_data, apply, execute, default,
}

-- What a creation command asks for, its creation time apart and its names trimmed.
pub record Describes (x : CreatedAccount) (i : ℕ) (e f l : Text) (d v : ℕ) : Type 0 where
  pub id_eq : x.account_id ≡ i
  pub email_eq : x.email ≡ e
  pub first_eq : x.first_name ≡ trim f
  pub last_eq : x.last_name ≡ trim l
  pub birth_eq : x.date_of_birth ≡ d
  pub validation_eq : x.validation_date ≡ v

same_data_sound :
    (x : CreatedAccount) (i : ℕ) (e f l : Text) (d v : ℕ)
    → same_data x i e (trim f) (trim l) d v ≡ true
    → Describes x i e f l d v
same_data_sound x i e f l d v h = ground (
  arith,
  text_eq_iff x.email e,
  text_eq_iff x.first_name (trim f),
  text_eq_iff x.last_name (trim l),
)

same_data_complete :
    (x : CreatedAccount) (i : ℕ) (e f l : Text) (d v : ℕ)
    → Describes x i e f l d v
    → same_data x i e (trim f) (trim l) d v ≡ true
same_data_complete x i e f l d v h = ground (
  arith,
  text_eq_iff x.email e,
  text_eq_iff x.first_name (trim f),
  text_eq_iff x.last_name (trim l),
)

-- An account that exists accepts no creation: a command with its data, whatever its creation time, is
-- reported as already created, and any other as a conflict.
pub execute_existing :
    (x : CreatedAccount) (i : ℕ) (e f l : Text) (d v at : ℕ)
    → let again = execute (record { created = some x }) (create_account i e f l d v at) in
      (Describes x i e f l d v × (again ≡ err already_created))
      ⊎ ((¬ Describes x i e f l d v) × (again ≡ err already_exists_with_different_data))
unfolding execute
execute_existing x i e f l d v at = elim (Bool-cases (same_data x i e (trim f) (trim l) d v)) [
  | inl h ↦ inl (same_data_sound x i e f l d v h, rw h)
  | inr h ↦ inr ((λ k. cc (same_data_complete x i e f l d v k)), rw h)
]

-- The data of a creation that may be accepted.
pub record IsCreatable (f l : Text) (d v : ℕ) : Type 0 where
  pub first_given : trim f ≢ []
  pub last_given : trim l ≢ []
  pub born : d ≤ v

-- An absent account is created exactly when both names are given and the birth is not after the
-- validation date; it then has the data of the command with the names trimmed, and the same command
-- with any creation time is reported as already created.
pub execute_absent :
    (i : ℕ) (e f l : Text) (d v at later : ℕ)
    → let c = create_account i e f l d v at in
      (IsCreatable f l d v
        × ((s : UserAccount) × (execute default c
              ≡ ok (s, account_created i e (trim f) (trim l) d v at))
            × (execute s (create_account i e f l d v later) ≡ err already_created)))
      ⊎ ((¬ IsCreatable f l d v) × ((x : UserAccountError) × (execute default c ≡ err x)))
unfolding execute
execute_absent i e f l d v at later = elim (Bool-cases (is_empty (trim f))) [
  | inl a ↦ inr ((λ k. absurd (ground (arith, k.first_given))), (empty_first_name, ground arith))
  | inr a ↦ elim (Bool-cases (is_empty (trim l))) [
    | inl b ↦ inr ((λ k. absurd (ground (arith, k.last_given))), (empty_last_name, ground arith))
    | inr b ↦ elim (Bool-cases (ltb v d)) [
      | inl c ↦
          inr ((λ k. absurd (ground (arith, k.born))), (future_date_of_birth d v, ground arith))
      | inr c ↦ inl (
        record { first_given = ground arith; last_given = ground arith; born = ground arith },
        (
          apply default (account_created i e (trim f) (trim l) d v at),
          ground arith,
          ground (arith, text_eq_refl e, text_eq_refl (trim f), text_eq_refl (trim l)),
        ),
      )
    ]
  ]
]

-- The second application of an event leaves the account alone.
pub apply_twice : (s : UserAccount) (e : UserAccountEvent) → apply (apply s e) e ≡ apply s e
unfolding apply
apply_twice s (account_created i e f l d v at) = refl
