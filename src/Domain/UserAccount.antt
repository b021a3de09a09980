-- ===== src/Domain/UserAccount.antt =====
-- The `UserAccount` aggregate (account-managements-service/src/domain/user_account.rs and the files
-- of user_account/). The single `sink.write` of its handler gives the event that `handle` returns, and
-- applies it.
pub mod Laws
use account_management_servi.Base.{
  ℕ, Bool, ◌&&◌, Option, none, some, Text, text, text_eq, trim, is_empty, ltb, ◌==◌, if◌then◌else◌,
  Result, ok, err,
}

-- Also the payload of the event `AccountCreated`, which has the same fields.
pub record CreatedAccount : Type 0 where
  pub account_id : ℕ
  pub email : Text
  pub first_name : Text
  pub last_name : Text
  pub date_of_birth : ℕ
  pub validation_date : ℕ
  pub created_at : ℕ

pub record UserAccount : Type 0 where
  pub created : Option CreatedAccount

-- `UserAccount::default()`.
abbrev pub default : UserAccount
default = record { created = none }

pub data UserAccountCommand : Type 0 where
  create_account :
      (account_id : ℕ) (email first_name last_name : Text)
      (date_of_birth validation_date created_at : ℕ)
      → UserAccountCommand

pub data UserAccountEvent : Type 0 where
  account_created :
      (account_id : ℕ) (email first_name last_name : Text)
      (date_of_birth validation_date created_at : ℕ)
      → UserAccountEvent

unfoldable pub event_type : UserAccountEvent → Text
event_type (account_created i e f l d v at) = text "account_created"

unfoldable pub event_version : UserAccountEvent → Text
event_version (account_created i e f l d v at) = text "1"

pub data UserAccountError : Type 0 where
  empty_first_name empty_last_name : UserAccountError
  future_date_of_birth : (date_of_birth validation_date : ℕ) → UserAccountError
  already_exists_with_different_data already_created : UserAccountError

-- The stored account has the data of the command, its creation time apart.
abbrev pub same_data : CreatedAccount → ℕ → Text → Text → Text → ℕ → ℕ → Bool
same_data x i e f l d v =
    (x.account_id == i)
    && (text_eq x.email e
        && (text_eq x.first_name f
            && (text_eq x.last_name l && ((x.date_of_birth == d) && (x.validation_date == v)))))

abbrev pub create :
    Option CreatedAccount
    → ℕ
    → Text
    → Text
    → Text
    → ℕ
    → ℕ
    → ℕ
    → Result UserAccountError UserAccountEvent
create (some x) i e f l d v at =
    err (if same_data x i e f l d v then already_created else already_exists_with_different_data)
create none i e f l d v at =
    if is_empty f
    then err empty_first_name
    else if is_empty l
    then err empty_last_name
    else if ltb v d
    then err (future_date_of_birth d v)
    else ok (account_created i e f l d v at)

unfoldable pub handle_create_account :
    UserAccount → ℕ → Text → Text → Text → ℕ → ℕ → ℕ → Result UserAccountError UserAccountEvent
handle_create_account s account_id email first_name last_name date_of_birth validation_date
      created_at =
    create s.created account_id email (trim first_name) (trim last_name) date_of_birth
      validation_date created_at

unfoldable pub handle : UserAccount → UserAccountCommand → Result UserAccountError UserAccountEvent
unfolding handle_create_account
handle s (create_account i e f l d v at) = handle_create_account s i e f l d v at

unfoldable pub apply : UserAccount → UserAccountEvent → UserAccount
apply s (account_created i e f l d v at) = record s {
  created = some (record {
    account_id = i;
    email = e;
    first_name = f;
    last_name = l;
    date_of_birth = d;
    validation_date = v;
    created_at = at;
  });
}

-- The command with the event written: the state after it and the event.
unfoldable pub execute :
    UserAccount → UserAccountCommand → Result UserAccountError (UserAccount × UserAccountEvent)
unfolding handle apply
execute s c = elim (handle s c) [ ok e ↦ ok (apply s e, e) | err x ↦ err x ]
