-- ===== src/System/Creations.antt =====
-- The creation of an account over a sound store
-- (account-managements-service/src/application/user_account/service.rs).
use account_management_servi.Base.{
  ℕ, ◌≡◌, refl, inl, inr, some, none, false, Bool-cases, Option-cases, [], ◌∷◌, ◌++◌, Text, text_eq,
  text_eq_iff, In, sym, ap, ◌∙◌, arith, ok,
}
use mathlib.Core.Path.{subst}
use account_management_servi.Task.Data.{NewTask}
use account_management_servi.Domain.EmailReservation.{EmailReservation}
use account_management_servi.Domain.UserAccount.{
  UserAccount, CreatedAccount, UserAccountError, UserAccountEvent, create_account,
}
use account_management_servi.Domain.UserAccount as Account
use account_management_servi.Application.Gateways.{Answer}
use account_management_servi.Application.Registration.{
  CreateAccountTaskV1, RecordAccountCreatedTaskV1, creation,
}
use account_management_servi.Application.Tasks.{Services}
use account_management_servi.Application.Tasks.Wiring.{record_format}
use account_management_servi.System.{Store, commits, fails, refuses, RanAccount}
use account_management_servi.System.Sound.{HasAccepted, IsAccountOf, IsTaskSound, IsSound, Grows}
use account_management_servi.System.Kept.{IsSound-grown, Same-IsSound}
use account_management_servi.System.Commands.{In-append, In-append_left, In-append_right}

-- An accepted creation finds no account, and leaves the one of its task.
pub created_lem :
    (t : CreateAccountTaskV1) (now : ℕ) (s s' : UserAccount) (e : UserAccountEvent)
    → Account.execute s (creation t now) ≡ ok (s', e)
    → (s.created ≡ none) × IsAccountOf s' t.email t.account_id t.profile now
unfolding Account.execute
created_lem t now s s' e h = elim (Option-cases s.created) [
  | inl n ↦ (n, ground (arith, n, h))
  | inr (x, n) ↦ absurd (ground (arith, n, h))
]

-- The completion of a creation at the time `now`.
abbrev pub completion_of : CreateAccountTaskV1 → ℕ → RecordAccountCreatedTaskV1
completion_of t now = record {
  email = t.email;
  account_id = t.account_id;
  profile = t.profile;
  created_at = now;
}

module _ {V W : Type 0} (store : Store V W) (uuid : ℕ → Text) (services : Services V W) where
  module _ (t : CreateAccountTaskV1) (now : ℕ) (task : NewTask V)
      (formatted : task.format ≡ record_format)
      (reads : services.read_record task.payload ≡ some (completion_of t now)) (w w' : W)
      (absent : (store.account w (uuid t.account_id)).created ≡ none)
      (created : IsAccountOf
        (store.account w' (uuid t.account_id))
        t.email
        t.account_id
        t.profile
        now)
      (others : (id : Text)
        → text_eq id (uuid t.account_id) ≡ false
        → store.account w' id ≡ store.account w id)
      (appended : store.published w' ≡ store.published w ++ (task ∷ []))
      (beside : (id : Text) → store.reservation w' id ≡ store.reservation w id) where
    created-Grows : Grows store uuid services w w'
    created-Grows = record {
      reservations = λ email i profile a.
          subst (λ (r : EmailReservation). HasAccepted r.phase i profile) (sym (beside email)) a;
      accounts = λ id x e. elim (Bool-cases (text_eq id (uuid t.account_id))) [
        | inl same ↦
            let q = (text_eq_iff id (uuid t.account_id)).0 same in
            absurd (ground (arith, absent, subst (λ y. (store.account w y).created ≡ some x) q e))
        | inr other ↦ ap (λ (r : UserAccount). r.created) (others id other) ∙ e
      ];
      tasks = λ task' m. subst (In task') (sym appended) (In-append_left task' _ (task ∷ []) m);
    }

    published_last : In task (store.published w')
    published_last =
        subst (In task) (sym appended) (In-append_right task (store.published w) _ (inl refl))

    completion-IsTaskSound :
        HasAccepted (store.reservation w t.email).phase t.account_id t.profile
        → (task' : NewTask V) → task' ≡ task
        → IsTaskSound store uuid services w' task'
    completion-IsTaskSound accepted task' e = record {
      creates = λ r f d. absurd (ground (arith, e, f, formatted));
      records = λ r f d.
          let d' : services.read_record task.payload ≡ some r =
            subst (λ (x : NewTask V). services.read_record x.payload ≡ some r) e d in
          let q : completion_of t now ≡ r = cc (reads, d') in
          subst
            (λ (x : RecordAccountCreatedTaskV1).
              HasAccepted (store.reservation w' x.email).phase x.account_id x.profile
              × IsAccountOf (store.account w' (uuid x.account_id)) x.email x.account_id x.profile
                  x.created_at)
            q (created-Grows.reservations t.email t.account_id t.profile accepted, created);
    }

    created-IsSound :
        HasAccepted (store.reservation w t.email).phase t.account_id t.profile
        → IsSound store uuid services w
        → IsSound store uuid services w'
    created-IsSound accepted h =
        IsSound-grown store uuid services w w' created-Grows
          (record {
            tasks = λ task' m.
                elim (In-append task' (store.published w) _ (subst (In task') appended m)) [
                  | inl old ↦ inl old
                  | inr (inl e) ↦ inr (completion-IsTaskSound accepted task' e)
                  | inr (inr m) ↦ absurd m
                ];
            accounts = λ id x e. elim (Bool-cases (text_eq id (uuid t.account_id))) [
              | inl same ↦
                  let q = (text_eq_iff id (uuid t.account_id)).0 same in
                  inr (record {
                    task = task;
                    payload = completion_of t now;
                    is_published = published_last;
                    has_format = formatted;
                    reads = reads;
                    at_id = q;
                    describes =
                        let e' : (store.account w' (uuid t.account_id)).created ≡ some x =
                          subst (λ y. (store.account w' y).created ≡ some x) q e in
                        cc (created, e');
                  })
              | inr other ↦ inl (ap (λ (r : UserAccount). r.created) (sym (others id other)) ∙ e)
            ];
            completions = λ email i digest profile at e.
                inl (ap (λ (r : EmailReservation). r.phase) (sym (beside email)) ∙ e);
            profiles = λ email i profile a.
                inl (
                  subst (λ (r : EmailReservation). HasAccepted r.phase i profile) (beside email) a);
          })
          h

  -- A creation whose profile was accepted keeps the store sound, with the completion that it publishes.
  pub ran_create-IsSound :
      (t : CreateAccountTaskV1) (now : ℕ) (task : NewTask V) (w : W)
      (x : Answer UserAccountError × W)
      → RanAccount store uuid (creation t now) (task ∷ []) w x
      → task.format ≡ record_format
      → services.read_record task.payload ≡ some (completion_of t now)
      → HasAccepted (store.reservation w t.email).phase t.account_id t.profile
      → IsSound store uuid services w
      → IsSound store uuid services x.1
  ran_create-IsSound t now task w (answer, w') (commits (e, k) others appended beside a) f r
        accepted h =
      let (absent, created) = created_lem t now _ _ e k in
      created-IsSound t now task f r w w' absent created others appended beside accepted h
  ran_create-IsSound t now task w (answer, w') (fails s a) f r accepted h =
      Same-IsSound store uuid services w w' s h
  ran_create-IsSound t now task w (answer, w') (refuses e s a k) f r accepted h =
      Same-IsSound store uuid services w w' s h
