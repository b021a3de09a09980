-- ===== src/Domain/Profile.antt =====
-- The registration profile (account-managements-service/src/domain/email_reservation.rs).
-- A `NaiveDate` is the number of its day, counted from the earliest day that chrono can represent;
-- a `DateTime<Utc>` is the number of nanoseconds since the midnight that begins that day.
use account_management_servi.Base.{
  ℕ, ◌≡◌, refl, ◌↔◌, Bool, true, ◌&&◌, arith, ◌==◌, Text, text_eq, text_eq_iff, trim, trim-trim,
}

pub record RegistrationProfile : Type 0 where
  pub first_name : Text
  pub last_name : Text
  pub date_of_birth : ℕ
  pub validation_date : ℕ

unfoldable pub new : Text → Text → ℕ → ℕ → RegistrationProfile
new first_name last_name date_of_birth validation_date = record {
  first_name = trim first_name;
  last_name = trim last_name;
  date_of_birth = date_of_birth;
  validation_date = validation_date;
}

-- The derived `PartialEq`.
unfoldable pub profile_eq : RegistrationProfile → RegistrationProfile → Bool
profile_eq p q =
    text_eq p.first_name q.first_name
    && (text_eq p.last_name q.last_name
        && (p.date_of_birth == q.date_of_birth && p.validation_date == q.validation_date))

pub profile_eq_iff : (p q : RegistrationProfile) → (profile_eq p q ≡ true) ↔ (p ≡ q)
unfolding profile_eq
profile_eq_iff p q =
    ground (arith, text_eq_iff p.first_name q.first_name, text_eq_iff p.last_name q.last_name)

pub profile_eq_refl : (p : RegistrationProfile) → profile_eq p p ≡ true
profile_eq_refl p = (profile_eq_iff p p).1 refl

-- A handler normalises the profile that the service has already normalised.
pub new-new :
    (a b : Text) (d v : ℕ) → new (new a b d v).first_name (new a b d v).last_name d v ≡ new a b d v
unfolding new
new-new a b d v = ground (arith, trim-trim a, trim-trim b)
