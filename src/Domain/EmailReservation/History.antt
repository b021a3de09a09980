-- ===== src/Domain/EmailReservation/History.antt =====
-- Histories of one email reservation: commands taken one after another, the events that they leave,
-- and the state that replaying those events gives
-- (account-managements-service/src/domain/email_reservation/aggregate.rs).
use account_management_servi.Base.{
  ℕ, ◌≡◌, refl, ◌≢◌, ◌⊎◌, inl, inr, Option, none, some, List, [], ◌∷◌, ◌++◌, ◌∙◌, Option-cases,
  arith, Text, Outcome, returns, rejects, panics, text_eq, text_eq_iff, text_eq_refl, Bool, true,
  false, ◌&&◌, ◌||◌, ◌==◌, Bool-cases,
}
use mathlib.Core.List.{Memᴰ, append-nil, append_assoc}
use mathlib.Core.Path.{subst}
use account_management_servi.Domain.Profile.{RegistrationProfile}
use account_management_servi.Domain.EmailReservation.{
  ReservationPhase, absent, awaiting_code, awaiting_profile, creating_account, account_created,
  EmailReservation, default, EmailReservationCommand, verify_email, submit_registration_profile,
  EmailReservationEvent, EmailReservationError, email_verified,
}
use account_management_servi.Domain.EmailReservation.Aggregate.{apply, execute}
use account_management_servi.Domain.EmailReservation.Lifecycle.{
  SevenDigits, IsComplete, Step, execute-Step, Step-execute,
}

-- A command that is rejected commits nothing.
abbrev pub committed :
    EmailReservation
    → Outcome EmailReservationError (EmailReservation × EmailReservationEvent)
    → EmailReservation × List EmailReservationEvent
committed s (returns (s', e)) = (s', e ∷ [])
committed s (rejects e) = (s, [])
committed s panics = (s, [])

unfoldable pub advance :
    EmailReservation → EmailReservationCommand → EmailReservation × List EmailReservationEvent
unfolding execute
advance s c = committed s (execute s c)

-- The state after a list of commands, and the events of the accepted ones, oldest first.
unfoldable pub run :
    EmailReservation → List EmailReservationCommand → EmailReservation × List EmailReservationEvent
run s [] = (s, [])
run s (c ∷ cs) = let (s', es) = advance s c in let (t, fs) = run s' cs in (t, es ++ fs)

-- The state that stored events give, `none` if `apply` panics.
unfoldable pub replay : EmailReservation → List EmailReservationEvent → Option EmailReservation
replay s [] = some s
replay s (e ∷ es) = elim (apply s e) [ none ↦ none | some s' ↦ replay s' es ]

execute_total_at :
    (p : ReservationPhase) (c : EmailReservationCommand) → execute (record { phase = p }) c ≢ panics
unfolding execute
execute_total_at absent c = ground arith
execute_total_at _ c = ground arith

-- No command panics, in any state.
pub execute-ne-panics : (s : EmailReservation) (c : EmailReservationCommand) → execute s c ≢ panics
execute-ne-panics s c = execute_total_at s.phase c

advance-replay_at :
    (p : ReservationPhase) (c : EmailReservationCommand)
    → let s : EmailReservation = record { phase = p } in
      replay s (advance s c).1 ≡ some (advance s c).0
unfolding advance replay apply
advance-replay_at absent c = ground arith
advance-replay_at _ c = ground arith

replay-append :
    (s t : EmailReservation) (es fs : List EmailReservationEvent)
    → replay s es ≡ some t
    → replay s (es ++ fs) ≡ replay t fs
unfolding replay
replay-append s t [] fs h = ground arith
replay-append s t (e ∷ es) fs h = elim (Option-cases (apply s e)) [
  | inl n ↦ absurd (ground arith)
  | inr (s', q) ↦ rw (q, replay) (replay-append s' t es fs (ground arith))
]

replay-run :
    (s : EmailReservation) (cs : List EmailReservationCommand)
    → replay s (run s cs).1 ≡ some (run s cs).0
unfolding run
replay-run s [] = unfold replay in refl
replay-run s (c ∷ cs) =
    replay-append s (advance s c).0 (advance s c).1 (run (advance s c).0 cs).1
      (advance-replay_at s.phase c)
    ∙ replay-run (advance s c).0 cs

-- A way through the lifecycle: each command is a step of it, or no step is open to the command, which then
-- leaves the phase.
pub data Follows : ReservationPhase → List EmailReservationCommand → ReservationPhase → Type 0 where
  ends : (p : ReservationPhase) → Follows p [] p
  takes :
      (p q r : ReservationPhase) (c : EmailReservationCommand) (cs : List EmailReservationCommand)
      → Step p c q
      → Follows q cs r
      → Follows p (c ∷ cs) r
  stays :
      (p r : ReservationPhase) (c : EmailReservationCommand) (cs : List EmailReservationCommand)
      → ((q : ReservationPhase) → Step p c q → ⊥)
      → Follows p cs r
      → Follows p (c ∷ cs) r

advance-Follows :
    (s : EmailReservation) (c : EmailReservationCommand) (cs : List EmailReservationCommand)
    (r : ReservationPhase)
    (o : Outcome EmailReservationError (EmailReservation × EmailReservationEvent))
    → execute s c ≡ o
    → Follows (committed s o).0.phase cs r
    → Follows s.phase (c ∷ cs) r
advance-Follows s c cs r (returns (s', e)) h rest =
    takes s.phase s'.phase r c cs (execute-Step s s' c e h) rest
advance-Follows s c cs r (rejects x) h rest =
    stays s.phase r c cs
      (λ q step. let (e, k) = Step-execute s c q step in absurd (ground (arith, h, k))) rest
advance-Follows s c cs r panics h rest =
    stays s.phase r c cs
      (λ q step. let (e, k) = Step-execute s c q step in absurd (ground (arith, h, k))) rest

run-Follows :
    (s : EmailReservation) (cs : List EmailReservationCommand)
    → Follows s.phase cs (run s cs).0.phase
unfolding run advance
run-Follows s [] = ends s.phase
run-Follows s (c ∷ cs) =
    advance-Follows s c cs (run (advance s c).0 cs).0.phase (execute s c) refl
      (run-Follows (advance s c).0 cs)

-- Whatever commands a reservation has taken, replaying the events that it committed gives its state back,
-- `apply` panicking on none of them; and that state is the one that the lifecycle leads to when each
-- command that has a step takes it and every other command changes nothing.
pub replay-run-default :
    (cs : List EmailReservationCommand)
    → (replay default (run default cs).1 ≡ some (run default cs).0)
      × Follows absent cs (run default cs).0.phase
replay-run-default cs = (replay-run default cs, run-Follows default cs)

-- What holds of every phase that a history reaches.
abbrev pub IsWellFormed : ReservationPhase → Type 0
IsWellFormed absent = Unit {0}
IsWellFormed (awaiting_code i code) = SevenDigits code
IsWellFormed (awaiting_profile i d) = Unit {0}
IsWellFormed (creating_account i d p) = IsComplete p
IsWellFormed (account_created i d p at) = IsComplete p

advance-IsWellFormed :
    (p : ReservationPhase) (c : EmailReservationCommand)
    → IsWellFormed p
    → IsWellFormed (advance (record { phase = p }) c).0.phase
unfolding advance
advance-IsWellFormed absent c v = ground arith
advance-IsWellFormed _ c v = ground arith

run-IsWellFormed :
    (s : EmailReservation) (cs : List EmailReservationCommand)
    → IsWellFormed s.phase
    → IsWellFormed (run s cs).0.phase
unfolding run
run-IsWellFormed s [] v = v
run-IsWellFormed s (c ∷ cs) v =
    run-IsWellFormed (advance s c).0 cs (advance-IsWellFormed s.phase c v)

-- After any commands, an outstanding code has seven digits, and an accepted profile has both names
-- and no birth after its validation date.
pub run-IsWellFormed-default :
    (cs : List EmailReservationCommand) → IsWellFormed (run default cs).0.phase
run-IsWellFormed-default cs = run-IsWellFormed default cs tt

-- The event says that this account was verified with this token digest.
abbrev is_verification : ℕ → Text → EmailReservationEvent → Bool
is_verification id digest (email_verified _ i d) = (i == id) && text_eq d digest
is_verification id digest _ = false

has_verification : ℕ → Text → List EmailReservationEvent → Bool
has_verification id digest [] = false
has_verification id digest (e ∷ es) = is_verification id digest e || has_verification id digest es

has_verification-append :
    (id : ℕ) (digest : Text) (es fs : List EmailReservationEvent)
    → has_verification id digest (es ++ fs)
      ≡ (has_verification id digest es || has_verification id digest fs)
unfolding has_verification
has_verification-append id digest [] fs = refl
has_verification-append id digest (e ∷ es) fs =
    ground (arith, has_verification-append id digest es fs)

is_verification_sound :
    (id : ℕ) (digest : Text) (e : EmailReservationEvent)
    → is_verification id digest e ≡ true
    → (email : Text) × (email_verified email id digest ≡ e)
is_verification_sound id digest (email_verified email i d) h =
    (email, ground (arith, text_eq_iff d digest))
is_verification_sound id digest _ h = cc

has_verification_sound :
    (id : ℕ) (digest : Text) (es : List EmailReservationEvent)
    → has_verification id digest es ≡ true
    → (email : Text) × Memᴰ (email_verified email id digest) es
unfolding has_verification
has_verification_sound id digest [] h = cc
has_verification_sound id digest (e ∷ es) h = elim (Bool-cases (is_verification id digest e)) [
  | inl hit ↦ let (email, q) = is_verification_sound id digest e hit in (email, Memᴰ.head q)
  | inr miss ↦
      let (email, m) = has_verification_sound id digest es (ground arith) in (email, Memᴰ.tail m)
]

-- What the committed events must hold for a reservation to be in this phase.
abbrev Vouched : ReservationPhase → List EmailReservationEvent → Type 0
Vouched absent es = Unit {0}
Vouched (awaiting_code i code) es = Unit {0}
Vouched (awaiting_profile i d) es = has_verification i d es ≡ true
Vouched (creating_account i d p) es = has_verification i d es ≡ true
Vouched (account_created i d p at) es = has_verification i d es ≡ true

advance-Vouched :
    (p : ReservationPhase) (c : EmailReservationCommand) (es : List EmailReservationEvent)
    → Vouched p es
    → let (s', fs) = advance (record { phase = p }) c in Vouched s'.phase (es ++ fs)
unfolding advance has_verification
advance-Vouched absent c es v = ground (arith, append-nil es)
advance-Vouched (awaiting_code i x) (verify_email email id code digest) es v = ground (
  arith,
  append-nil es,
  has_verification-append id digest es (email_verified email id digest ∷ []),
  text_eq_refl digest,
)
advance-Vouched (awaiting_code i x) c es v = ground (arith, append-nil es)
advance-Vouched (awaiting_profile i d) (submit_registration_profile email id digest p) es v =
    ground (
      arith,
      append-nil es,
      text_eq_iff d digest,
      has_verification-append id digest es
          (advance (record { phase = awaiting_profile i d })
            (submit_registration_profile email id digest p)).1,
    )
advance-Vouched (awaiting_profile i d) c es v = ground (
  arith,
  append-nil es,
  has_verification-append i d es (advance (record { phase = awaiting_profile i d }) c).1,
)
advance-Vouched (creating_account i d p) c es v = ground (
  arith,
  append-nil es,
  has_verification-append i d es (advance (record { phase = creating_account i d p }) c).1,
)
advance-Vouched (account_created i d p at) c es v = ground (
  arith,
  append-nil es,
  has_verification-append i d es (advance (record { phase = account_created i d p at }) c).1,
)

run-Vouched :
    (s : EmailReservation) (cs : List EmailReservationCommand) (es : List EmailReservationEvent)
    → Vouched s.phase es
    → Vouched (run s cs).0.phase (es ++ (run s cs).1)
unfolding run
run-Vouched s [] es v = rw (append-nil es) v
run-Vouched s (c ∷ cs) es v =
    rw (← append_assoc es (advance s c).1 (run (advance s c).0 cs).1)
      (run-Vouched (advance s c).0 cs (es ++ (advance s c).1) (advance-Vouched s.phase c es v))

-- An account is never created, nor a profile accepted, for an account ID whose email was not
-- verified: the history holds the verification that issued the consumed token.
pub created_was_verified :
    (cs : List EmailReservationCommand) (id : ℕ) (digest : Text) (profile : RegistrationProfile)
    (created_at : ℕ)
    → ((run default cs).0.phase ≡ creating_account id digest profile)
      ⊎ ((run default cs).0.phase ≡ account_created id digest profile created_at)
    → (email : Text) × Memᴰ (email_verified email id digest) (run default cs).1
created_was_verified cs id digest profile at h =
    has_verification_sound id digest (run default cs).1 (elim h [
      | inl e ↦ subst (λ p. Vouched p (run default cs).1) e (run-Vouched default cs [] tt)
      | inr e ↦ subst (λ p. Vouched p (run default cs).1) e (run-Vouched default cs [] tt)
    ])
