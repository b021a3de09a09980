-- ===== src/System/Commands.antt =====
-- Commands on reservations and on accounts over a sound store
-- (account-managements-service/src/domain).
use account_management_servi.Base.{
  ℕ, ◌≡◌, ◌⊎◌, inl, inr, false, Bool-cases, List, [], ◌∷◌, ◌++◌, Text, text_eq, text_eq_iff, In,
  sym, ap, ◌∙◌, arith, trim-trim,
}
use mathlib.Core.Path.{subst}
use account_management_servi.Task.Data.{NewTask}
use account_management_servi.Domain.Profile
use account_management_servi.Domain.Profile.{RegistrationProfile}
use account_management_servi.Domain.EmailReservation.{
  EmailReservation, ReservationPhase, account_created, EmailReservationCommand,
  record_account_created, EmailReservationError,
}
use account_management_servi.Domain.EmailReservation.Lifecycle as Lifecycle
use account_management_servi.Domain.EmailReservation.Lifecycle.{
  reserves, reissues, restarts, verifies, accepts, completes, execute-Step, IsComplete, normalised,
}
use account_management_servi.Domain.UserAccount.{UserAccount}
use account_management_servi.Application.Gateways.{aggregate_id, Answer}
use account_management_servi.Application.Tasks.{Services}
use account_management_servi.System.{
  Store, commits, fails, refuses, AcceptsReservation, RanReservation,
}
use account_management_servi.System.Sound.{HasAccepted, IsAccountOf, IsTaskSound, IsSound, Grows}
use account_management_servi.System.Kept.{IsSound-grown, Same-IsSound}

Step-HasAccepted :
    (p q : ReservationPhase) (c : EmailReservationCommand) (i : ℕ) (profile : RegistrationProfile)
    → Lifecycle.Step p c q
    → HasAccepted p i profile
    → HasAccepted q i profile
Step-HasAccepted p q c i profile (reserves email id code e k d r) h =
    absurd (subst (λ x. HasAccepted x i profile) e h)
Step-HasAccepted p q c i profile (reissues email id code x y e k n d r) h =
    absurd (subst (λ x. HasAccepted x i profile) e h)
Step-HasAccepted p q c i profile (restarts email id code x y e k n d r) h =
    absurd (subst (λ x. HasAccepted x i profile) e h)
Step-HasAccepted p q c i profile (verifies email id code digest e k r) h =
    absurd (subst (λ x. HasAccepted x i profile) e h)
Step-HasAccepted p q c i profile (accepts email id digest accepted e k v r) h =
    absurd (subst (λ x. HasAccepted x i profile) e h)
Step-HasAccepted p q c i profile (completes email id digest accepted at e k r) h =
    subst (λ x. HasAccepted x i profile) (sym r) (subst (λ x. HasAccepted x i profile) e h)

normalised-normalised : (p : RegistrationProfile) → normalised (normalised p) ≡ normalised p
unfolding Profile.new
normalised-normalised p = ground (arith, trim-trim p.first_name, trim-trim p.last_name)

-- A step accepts only a complete profile, and keeps the one that it finds.
Step-IsComplete :
    (p q : ReservationPhase) (c : EmailReservationCommand) (i : ℕ) (profile : RegistrationProfile)
    → Lifecycle.Step p c q
    → HasAccepted q i profile
    → HasAccepted p i profile ⊎ IsComplete (normalised profile)
Step-IsComplete p q c i profile (reserves email id code e k d r) h =
    absurd (subst (λ x. HasAccepted x i profile) r h)
Step-IsComplete p q c i profile (reissues email id code x y e k n d r) h =
    absurd (subst (λ x. HasAccepted x i profile) r h)
Step-IsComplete p q c i profile (restarts email id code x y e k n d r) h =
    absurd (subst (λ x. HasAccepted x i profile) r h)
Step-IsComplete p q c i profile (verifies email id code digest e k r) h =
    absurd (subst (λ x. HasAccepted x i profile) r h)
Step-IsComplete p q c i profile (accepts email id digest accepted e k v r) h =
    let same : normalised accepted ≡ profile = (subst (λ x. HasAccepted x i profile) r h).1 in
    inr (subst IsComplete (sym (normalised-normalised accepted) ∙ ap normalised same) v)
Step-IsComplete p q c i profile (completes email id digest accepted at e k r) h =
    inl (subst (λ x. HasAccepted x i profile) (sym e) (subst (λ x. HasAccepted x i profile) r h))

Step-completes :
    (p q : ReservationPhase) (c : EmailReservationCommand) (i : ℕ) (d : Text)
    (profile : RegistrationProfile) (at : ℕ)
    → Lifecycle.Step p c q
    → q ≡ account_created i d profile at
    → (email : Text) × (c ≡ record_account_created email i profile at)
Step-completes p q c i d profile at (reserves email id code e k n r) h =
    absurd (ground (arith, h, r))
Step-completes p q c i d profile at (reissues email id code x y e k n m r) h =
    absurd (ground (arith, h, r))
Step-completes p q c i d profile at (restarts email id code x y e k n m r) h =
    absurd (ground (arith, h, r))
Step-completes p q c i d profile at (verifies email id code digest e k r) h =
    absurd (ground (arith, h, r))
Step-completes p q c i d profile at (accepts email id digest accepted e k v r) h =
    absurd (ground (arith, h, r))
Step-completes p q c i d profile at (completes email id digest accepted at' e k r) h =
    (email, ground (arith, h, r, k))

module _ {A : Type 0} where
  pub In-append : (a : A) (xs ys : List A) → In a (xs ++ ys) → In a xs ⊎ In a ys
  In-append a [] ys m = inr m
  In-append a (x ∷ xs) ys (inl e) = inl (inl e)
  In-append a (x ∷ xs) ys (inr m) = elim (In-append a xs ys m) [
    | inl k ↦ inl (inr k)
    | inr k ↦ inr k
  ]

  pub In-append_left : (a : A) (xs ys : List A) → In a xs → In a (xs ++ ys)
  In-append_left a [] ys m = absurd m
  In-append_left a (x ∷ xs) ys (inl e) = inl e
  In-append_left a (x ∷ xs) ys (inr m) = inr (In-append_left a xs ys m)

  pub In-append_right : (a : A) (xs ys : List A) → In a ys → In a (xs ++ ys)
  In-append_right a [] ys m = m
  In-append_right a (x ∷ xs) ys m = inr (In-append_right a xs ys m)

module _ {V W : Type 0} (store : Store V W) (uuid : ℕ → Text) (services : Services V W) where
  -- A completion names the account as it is.
  abbrev pub IsFounded : W → EmailReservationCommand → Type 0
  IsFounded w (record_account_created email i profile at) =
      IsAccountOf (store.account w (uuid i)) email i profile at
  IsFounded w _ = Unit {0}

  module _ (c : EmailReservationCommand) (tasks : List (NewTask V)) (w w' : W)
      (step : Lifecycle.Step
        (store.reservation w (aggregate_id c)).phase
        c
        (store.reservation w' (aggregate_id c)).phase)
      (others : (id : Text)
        → text_eq id (aggregate_id c) ≡ false
        → store.reservation w' id ≡ store.reservation w id)
      (appended : store.published w' ≡ store.published w ++ tasks)
      (beside : (id : Text) → store.account w' id ≡ store.account w id) where
    committed-Grows : Grows store uuid services w w'
    committed-Grows = record {
      reservations = λ email i profile a. elim (Bool-cases (text_eq email (aggregate_id c))) [
        | inl same ↦
            let e = (text_eq_iff email (aggregate_id c)).0 same in
            subst (λ x. HasAccepted (store.reservation w' x).phase i profile) (sym e)
              (Step-HasAccepted _ _ c i profile step
                (subst (λ x. HasAccepted (store.reservation w x).phase i profile) e a))
        | inr other ↦
            subst (λ (r : EmailReservation). HasAccepted r.phase i profile)
              (sym (others email other)) a
      ];
      accounts = λ id x e. ap (λ (r : UserAccount). r.created) (beside id) ∙ e;
      tasks = λ task m. subst (In task) (sym appended) (In-append_left task _ tasks m);
    }

    completion_founded :
        (email : Text) (i : ℕ) (digest : Text) (profile : RegistrationProfile) (at : ℕ)
        → IsFounded w c
        → email ≡ aggregate_id c
        → (store.reservation w' email).phase ≡ account_created i digest profile at
        → IsAccountOf (store.account w' (uuid i)) email i profile at
    unfolding aggregate_id
    completion_founded email i digest profile at founded same e =
        let (address, k) = Step-completes _ _ c i digest profile at step (
          subst (λ x. (store.reservation w' x).phase ≡ account_created i digest profile at) same
            e) in
        let account : IsAccountOf (store.account w (uuid i)) address i profile at =
          subst (IsFounded w) k founded in
        let named : email ≡ address = same ∙ ap aggregate_id k in
        subst (λ x. IsAccountOf (store.account w' (uuid i)) x i profile at) (sym named)
          (ap (λ (r : UserAccount). r.created) (beside (uuid i)) ∙ account)

    committed-IsSound :
        IsFounded w c
        → ((task : NewTask V) → In task tasks → IsTaskSound store uuid services w' task)
        → IsSound store uuid services w
        → IsSound store uuid services w'
    committed-IsSound founded new h =
        IsSound-grown store uuid services w w' committed-Grows
          (record {
            tasks = λ task m.
                elim (In-append task (store.published w) tasks (subst (In task) appended m)) [
                  | inl old ↦ inl old
                  | inr added ↦ inr (new task added)
                ];
            accounts = λ id x e. inl (ap (λ (r : UserAccount). r.created) (sym (beside id)) ∙ e);
            completions = λ email i digest profile at e.
                elim (Bool-cases (text_eq email (aggregate_id c))) [
                  | inl same ↦ inr (
                      completion_founded email i digest profile at founded
                        ((text_eq_iff email (aggregate_id c)).0 same) e)
                  | inr other ↦
                      inl (ap (λ (r : EmailReservation). r.phase) (sym (others email other)) ∙ e)
                ];
            profiles = λ email i profile a. elim (Bool-cases (text_eq email (aggregate_id c))) [
              | inl same ↦
                  subst
                    (λ x.
                      HasAccepted (store.reservation w' x).phase i profile
                      → HasAccepted (store.reservation w x).phase i profile
                        ⊎ IsComplete (normalised profile))
                    (sym ((text_eq_iff email (aggregate_id c)).0 same))
                    (Step-IsComplete _ _ c i profile step) a
              | inr other ↦ inl (
                  subst (λ (r : EmailReservation). HasAccepted r.phase i profile)
                    (others email other) a)
            ];
          })
          h

  -- A command on a reservation keeps the store sound, provided that a completion names the account as it
  -- is and that the command's tasks are sound once it is accepted.
  pub ran-IsSound :
      (c : EmailReservationCommand) (tasks : List (NewTask V)) (w : W)
      (x : Answer EmailReservationError × W)
      → RanReservation store c tasks w x
      → IsFounded w c
      → (AcceptsReservation
            (store.reservation w (aggregate_id c))
            c
            (store.reservation x.1 (aggregate_id c))
          → (task : NewTask V) → In task tasks
          → IsTaskSound store uuid services x.1 task)
      → IsSound store uuid services w
      → IsSound store uuid services x.1
  ran-IsSound c tasks w (answer, w') (commits (e, k) others appended beside a) founded new h =
      committed-IsSound c tasks w w' (execute-Step _ _ c e k) others appended beside founded
        (new (e, k)) h
  ran-IsSound c tasks w (answer, w') (fails s a) founded new h =
      Same-IsSound store uuid services w w' s h
  ran-IsSound c tasks w (answer, w') (refuses e s a r) founded new h =
      Same-IsSound store uuid services w w' s h
