-- ===== src/Tests/Accounts.antt =====
-- The theorems on accounts and email addresses at samples.
use account_management_servi.Base.{
  ℕ, leb, ◌&&◌, if◌then◌else◌, ◌+◌, ◌∷◌, [], keep_end, ◌≡◌, refl, some, Text, text, trim, ok,
  contains, is_whitespace, trim_start, trim_end, arith,
}
use account_management_servi.Domain.Email.{quote, parse, AddressLaws, IsCanonical, parse-parse}
use account_management_servi.Domain.UserAccount.{CreatedAccount}
use account_management_servi.Tests.Samples.{email}

abbrev ann : CreatedAccount
ann = record {
  account_id = 7;
  email = email;
  first_name = text "Ann";
  last_name = text "Lee";
  date_of_birth = 700_000;
  validation_date = 739_000;
  created_at = 900;
}

-- An address parser that accepts every text, and the lower-casing of ASCII letters.
abbrev lower : ℕ → ℕ
lower c = if leb 65 c && leb c 90 then c + 32 else c

abbrev lowered : Text → Text
lowered [] = []
lowered (c ∷ cs) = lower c ∷ lowered cs

lower-is_whitespace : (c : ℕ) → is_whitespace (lower c) ≡ is_whitespace c
unfolding is_whitespace
lower-is_whitespace c = ground arith

lowered-lowered : (t : Text) → lowered (lowered t) ≡ lowered t
lowered-lowered [] = refl
lowered-lowered (c ∷ cs) = ground (arith, lowered-lowered cs)

lowered-quotes : (t : Text) → contains (lowered t) quote ≡ contains t quote
unfolding contains
lowered-quotes [] = refl
lowered-quotes (c ∷ cs) = ground (arith, lowered-quotes cs)

lowered-trim_start : (t : Text) → trim_start (lowered t) ≡ lowered (trim_start t)
unfolding trim_start
lowered-trim_start [] = refl
lowered-trim_start (c ∷ cs) = ground (arith, lower-is_whitespace c, lowered-trim_start cs)

lowered-keep_end : (c : ℕ) (t : Text) → keep_end (lower c) (lowered t) ≡ lowered (keep_end c t)
lowered-keep_end c [] = ground (arith, lower-is_whitespace c)
lowered-keep_end c (d ∷ ds) = refl

lowered-trim_end : (t : Text) → trim_end (lowered t) ≡ lowered (trim_end t)
unfolding trim_end
lowered-trim_end [] = refl
lowered-trim_end (c ∷ cs) = rw (lowered-trim_end cs) (lowered-keep_end c (trim_end cs))

lowered-trim : (t : Text) → trim (lowered t) ≡ lowered (trim t)
unfolding trim
lowered-trim t = rw (lowered-trim_start t) (lowered-trim_end (trim_start t))

sample_laws : AddressLaws lowered some
sample_laws = record {
  parse_keeps = λ t a h. ground (arith, h);
  lowercase_twice = lowered-lowered;
  lowercase_quotes = lowered-quotes;
  lowercase_trim = lowered-trim;
}

abbrev shouted : Text
shouted = text " ANN@example.org"

parses : parse lowered some shouted ≡ ok email
unfolding parse contains trim trim_start trim_end is_whitespace
parses = refl

same_mailbox : lowered (trim (text "Ann@Example.org ")) ≡ lowered (trim shouted)
unfolding trim trim_start trim_end is_whitespace
same_mailbox = refl

parse-parse_example :
    IsCanonical lowered some email × (parse lowered some (text "Ann@Example.org ") ≡ ok email)
parse-parse_example =
    parse-parse lowered some sample_laws shouted (text "Ann@Example.org ") email parses same_mailbox
