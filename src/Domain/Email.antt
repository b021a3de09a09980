-- ===== src/Domain/Email.antt =====
-- Email addresses (account-managements-service/src/domain/email_reservation/value_objects.rs). An
-- `Email` is the text of its address, which is what it serialises to. The crate email_address and the
-- Unicode lower-casing table are parameters: `parse_address` stands for
-- `EmailAddress::parse_with_options` with the options of the source, and gives the text that `as_str`
-- returns.
use account_management_servi.Base.{
  ℕ, ◌≡◌, refl, sym, ap, ◌∙◌, false, Option, some, [], ◌∷◌, arith, Text, contains, is_whitespace,
  trim, trim-trim, ◌||◌, true, trim_start, trim_end, Result, ok, err, ok_or, if◌then◌else◌,
  keep_end, ◌==◌, Bool-cases, inl, inr,
}
use mathlib.Core.Path.{subst}

pub data InvalidEmail : Type 0 where
  invalid_email : InvalidEmail

abbrev pub quote : ℕ
quote = b'"'

unfoldable pub parse : (Text → Text) → (Text → Option Text) → Text → Result InvalidEmail Text
parse to_lowercase parse_address value =
    if contains value quote
    then err invalid_email
    else ok_or (parse_address (to_lowercase (trim value))) invalid_email

-- What the two parameters are relied on for: a parsed address is the text that was parsed; lower-casing is
-- idempotent, keeps the quotes of a text, and neither makes nor removes white space at its ends.
pub record AddressLaws (to_lowercase : Text → Text) (parse_address : Text → Option Text)
    : Type 0 where
  pub parse_keeps : (t a : Text) → parse_address t ≡ some a → a ≡ t
  pub lowercase_twice : (t : Text) → to_lowercase (to_lowercase t) ≡ to_lowercase t
  pub lowercase_quotes : (t : Text) → contains (to_lowercase t) quote ≡ contains t quote
  pub lowercase_trim : (t : Text) → trim (to_lowercase t) ≡ to_lowercase (trim t)

-- Trimming keeps every quote.
space-quote : (x : ℕ) → is_whitespace x ≡ true → (x == quote) ≡ false
unfolding is_whitespace
space-quote x h = ground (arith, h)

trim_start-contains : (s : Text) → contains (trim_start s) quote ≡ contains s quote
unfolding contains trim_start
trim_start-contains [] = refl
trim_start-contains (x ∷ xs) = ground (arith, space-quote x, trim_start-contains xs)

keep_end-contains :
    (x : ℕ) (ys : Text) → contains (keep_end x ys) quote ≡ ((x == quote) || contains ys quote)
unfolding contains
keep_end-contains x [] = ground (arith, space-quote x)
keep_end-contains x (y ∷ ys) = refl

trim_end-contains : (s : Text) → contains (trim_end s) quote ≡ contains s quote
unfolding contains trim_end
trim_end-contains [] = refl
trim_end-contains (x ∷ xs) = ground (arith, keep_end-contains x (trim_end xs), trim_end-contains xs)

trim-contains : (s : Text) → contains (trim s) quote ≡ contains s quote
unfolding trim
trim-contains s = trim_end-contains (trim_start s) ∙ trim_start-contains s

-- What a text must be to serve as the key of a reservation: an address without quotes or white space at its
-- ends, in lower case, that serialises to itself.
pub record IsCanonical (to_lowercase : Text → Text) (parse_address : Text → Option Text)
    (email : Text) : Type 0 where
  pub unquoted : contains email quote ≡ false
  pub lower : to_lowercase email ≡ email
  pub trimmed : trim email ≡ email
  pub is_address : parse_address email ≡ some email
  pub reads_back : parse to_lowercase parse_address email ≡ ok email

module _ (to_lowercase : Text → Text) (parse_address : Text → Option Text)
    (laws : AddressLaws to_lowercase parse_address) where
  normalised-contains :
      (value : Text) → contains (to_lowercase (trim value)) quote ≡ contains value quote
  normalised-contains value = laws.lowercase_quotes (trim value) ∙ trim-contains value

  normalised-trim : (value : Text) → trim (to_lowercase (trim value)) ≡ to_lowercase (trim value)
  normalised-trim value = laws.lowercase_trim (trim value) ∙ ap to_lowercase (trim-trim value)

  normalised-IsCanonical :
      (value : Text)
      → contains value quote ≡ false
      → parse_address (to_lowercase (trim value)) ≡ some (to_lowercase (trim value))
      → IsCanonical to_lowercase parse_address (to_lowercase (trim value))
  unfolding parse
  normalised-IsCanonical value q a = record {
    unquoted = normalised-contains value ∙ q;
    lower = laws.lowercase_twice (trim value);
    trimmed = normalised-trim value;
    is_address = a;
    reads_back = ground (
      arith,
      normalised-contains value,
      q,
      normalised-trim value,
      laws.lowercase_twice (trim value),
      a,
    );
  }

-- A parsed email has no quote, no white space at its ends and no upper-case letter, is an address, and
-- serialises to a text that parses to the same email; and every text that differs from the parsed one only
-- in case or in the white space around it parses to the same email. The address parser gives back the text
-- that it parsed, and lower-casing is idempotent and keeps quotes and the white space at the ends.
pub parse-parse :
    (to_lowercase : Text → Text) (parse_address : Text → Option Text)
    (laws : AddressLaws to_lowercase parse_address) (value other email : Text)
    → parse to_lowercase parse_address value ≡ ok email
    → to_lowercase (trim other) ≡ to_lowercase (trim value)
    → IsCanonical to_lowercase parse_address email
      × (parse to_lowercase parse_address other ≡ ok email)
unfolding parse
parse-parse to_lowercase parse_address laws value other email h k =
    elim (Bool-cases (contains value quote)) [
      | inl q ↦ absurd (ground arith)
      | inr q ↦
          let low : Text = to_lowercase (trim value) in
          let parsed : parse_address low ≡ some email = ground arith in
          let same : email ≡ low = laws.parse_keeps low email parsed in
          let unquoted : contains other quote ≡ false =
            sym (normalised-contains to_lowercase parse_address laws other)
            ∙ ap (λ t. contains t quote) k
            ∙ normalised-contains to_lowercase parse_address laws value
            ∙ q in
          (
            subst (IsCanonical to_lowercase parse_address) (sym same) (
                normalised-IsCanonical to_lowercase parse_address laws value q
                  (parsed ∙ ap some same)),
            ground (arith, unquoted, k, parsed),
          )
    ]
