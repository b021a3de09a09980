-- ===== src/Config/Numerals.antt =====
-- What is read as an integer (cqrs-runtime/src/env.rs).
use account_management_servi.Base.{
  ℕ, zero, suc, ◌+◌, ◌-◌, ◌*◌, ◌^◌, ◌≤◌, ◌≡◌, refl, ◌≢◌, ◌⊎◌, inl, inr, ◌↔◌, [], ◌∷◌, Text, ok,
  arith, length, Bool-cases, ◌==◌, sym, ap, ◌∙◌,
}
use native.Mathlib.Numerals.{unary_clauses}
use mathlib.Core.Path.{subst}
use native.Mathlib.Nat.{pow-suc}
use account_management_servi.Time.{u64_max}
use account_management_servi.Config.{digits, parse_u64}

-- The number that a text of decimal digits stands for.
abbrev pub value : Text → ℕ
value [] = 0
value (c ∷ rest) = (c - 48) * 10 ^ length rest + value rest

abbrev pub AllDigits : Text → Type 0
AllDigits [] = Unit {0}
AllDigits (c ∷ rest) = (48 ≤ c) × (c ≤ 57) × AllDigits rest

abbrev pub IsNumeral : Text → ℕ → Type 0
IsNumeral s n =
    (ds : Text) × ((s ≡ ds) ⊎ (s ≡ 43 ∷ ds))
    × (ds ≢ [])
    × AllDigits ds
    × (n ≡ value ds)
    × (n ≤ u64_max)

horner_at : (a d p v n : ℕ) → n ≡ (a * 10 + d) * p + v → n ≡ a * (p * 10) + (d * p + v)
horner_at a d p v n h = omega (arith, h)

shifted : (m p q : ℕ) → q ≡ p * 10 → m * q ≡ m * 10 * p
shifted m p q h = rw h (omega arith)

horner : (a d k v n : ℕ) → n ≡ (a * 10 + d) * 10 ^ k + v → n ≡ a * 10 ^ suc k + (d * 10 ^ k + v)
horner a d k v n h = simp unary_clauses (horner_at a d (10 ^ k) v n h)

-- A prefix is at most the number.
prefix_bounded : (k m v b : ℕ) → m * 10 ^ k + v ≤ b → m ≤ b
prefix_bounded zero m v b h = omega (arith, h)
prefix_bounded (suc k) m v b h =
    let next =
      prefix_bounded k (m * 10) v b
        (omega (arith, pow-suc 10 k, shifted m (10 ^ k) (10 ^ suc k) (pow-suc 10 k), h)) in
    omega (arith, next)

digits-value :
    (ds : Text) (acc n : ℕ)
    → digits acc ds ≡ ok n
    → acc ≤ u64_max
    → AllDigits ds × (n ≡ acc * 10 ^ length ds + value ds) × (n ≤ u64_max)
unfolding digits
digits-value [] acc n h b = (tt, ground (arith, h), ground (arith, h, b))
digits-value (c ∷ rest) acc n h b =
    let (d, e, m) =
      digits-value rest (acc * 10 + (c - 48)) n (ground (arith, h)) (ground (arith, h)) in
    (
      (ground (arith, h), ground (arith, h), d),
      horner acc (c - 48) (length rest) (value rest) n e,
      m,
    )

value-digits :
    (ds : Text) (acc : ℕ)
    → AllDigits ds
    → acc * 10 ^ length ds + value ds ≤ u64_max
    → digits acc ds ≡ ok (acc * 10 ^ length ds + value ds)
unfolding digits
value-digits [] acc d b = ground arith
value-digits (c ∷ rest) acc (low, high, d) b =
    let e = horner acc (c - 48) (length rest) (value rest) _ refl in
    let bounded : (acc * 10 + (c - 48)) * 10 ^ length rest + value rest ≤ u64_max =
      omega (arith, e, b) in
    let next = value-digits rest (acc * 10 + (c - 48)) d bounded ∙ ap ok e in
    let head_bounded =
      prefix_bounded (length rest) (acc * 10 + (c - 48)) (value rest) u64_max bounded in
    ground (arith, next, head_bounded, low, high)

digits-IsNumeral :
    (s ds : Text) (n : ℕ) → (s ≡ ds) ⊎ (s ≡ 43 ∷ ds) → ds ≢ [] → digits 0 ds ≡ ok n → IsNumeral s n
digits-IsNumeral s ds n q nonempty h =
    let (d, e, b) = digits-value ds 0 n h (omega arith) in (ds, q, nonempty, d, omega (arith, e), b)

parse_u64-IsNumeral : (s : Text) (n : ℕ) → parse_u64 s ≡ ok n → IsNumeral s n
unfolding parse_u64
parse_u64-IsNumeral [] n h = absurd (ground (arith, h))
parse_u64-IsNumeral (c ∷ rest) n h = elim (Bool-cases (c == 43)) [
  | inr other ↦
      digits-IsNumeral (c ∷ rest) (c ∷ rest) n (inl refl) (λ e. ground (arith, e))
        (ground (arith, h, other))
  | inl plus ↦
      digits-IsNumeral (c ∷ rest) rest n (inr (ground (arith, plus)))
        (λ e. ground (arith, e, h, plus)) (ground (arith, h, plus))
]

parse_plain :
    (ds : Text) (n : ℕ) → ds ≢ [] → AllDigits ds → digits 0 ds ≡ ok n → parse_u64 ds ≡ ok n
unfolding parse_u64
parse_plain [] n nonempty d h = absurd (nonempty refl)
parse_plain (c ∷ rest) n nonempty (low, high, d) h = ground (arith, h, low)

parse_signed : (ds : Text) (n : ℕ) → ds ≢ [] → digits 0 ds ≡ ok n → parse_u64 (43 ∷ ds) ≡ ok n
unfolding parse_u64
parse_signed [] n nonempty h = absurd (nonempty refl)
parse_signed (c ∷ rest) n nonempty h = h

IsNumeral-parse_u64 : (s : Text) (n : ℕ) → IsNumeral s n → parse_u64 s ≡ ok n
IsNumeral-parse_u64 s n (ds, q, nonempty, d, e, b) =
    let h : digits 0 ds ≡ ok n =
      value-digits ds 0 d (omega (arith, e, b)) ∙ ap ok (omega (arith, e)) in
    elim q [
      | inl plain ↦ subst (λ x. parse_u64 x ≡ ok n) (sym plain) (parse_plain ds n nonempty d h)
      | inr signed ↦ subst (λ x. parse_u64 x ≡ ok n) (sym signed) (parse_signed ds n nonempty h)
    ]

-- A text is read as a number exactly if it is that number in decimal digits, after at most one sign `+`,
-- and the number fits an `u64`: the checked steps of the loop refuse no number that fits and let none
-- wrap around.
pub parse_u64_iff : (s : Text) (n : ℕ) → (parse_u64 s ≡ ok n) ↔ IsNumeral s n
parse_u64_iff s n = (parse_u64-IsNumeral s n, IsNumeral-parse_u64 s n)
