-- ===== src/System/Kept.antt =====
-- Steps that only add to a sound store (account-managements-service/src/application/user_account).
use account_management_servi.Base.{ℕ, inl, inr, Text, In, sym, ap, ◌∙◌}
use mathlib.Core.Path.{subst}
use account_management_servi.Task.Data.{NewTask}
use account_management_servi.Domain.EmailReservation.{EmailReservation}
use account_management_servi.Domain.UserAccount.{UserAccount, CreatedAccount}
use account_management_servi.Application.Tasks.{Services}
use account_management_servi.System.{Store, Same}
use account_management_servi.System.Sound.{
  HasAccepted, IsTaskSound, IsRecorded, IsSound, Grows, AddsSound,
}

module _ {V W : Type 0} (store : Store V W) (uuid : ℕ → Text) (services : Services V W) where
  IsTaskSound-grown :
      (w w' : W) (task : NewTask V)
      → Grows store uuid services w w'
      → IsTaskSound store uuid services w task
      → IsTaskSound store uuid services w' task
  IsTaskSound-grown w w' task g h = record {
    creates = λ t f r. g.reservations t.email t.account_id t.profile (h.creates t f r);
    records = λ t f r.
        let (a, x) = h.records t f r in
        (g.reservations t.email t.account_id t.profile a, g.accounts (uuid t.account_id) _ x);
  }

  IsRecorded-grown :
      (w w' : W) (id : Text) (x : CreatedAccount)
      → Grows store uuid services w w'
      → IsRecorded store uuid services w id x
      → IsRecorded store uuid services w' id x
  IsRecorded-grown w w' id x g h = record {
    task = h.task;
    payload = h.payload;
    is_published = g.tasks h.task h.is_published;
    has_format = h.has_format;
    reads = h.reads;
    at_id = h.at_id;
    describes = h.describes;
  }

  -- A step that undoes nothing and adds only what is sound keeps the store sound.
  pub IsSound-grown :
      (w w' : W)
      → Grows store uuid services w w'
      → AddsSound store uuid services w w'
      → IsSound store uuid services w
      → IsSound store uuid services w'
  IsSound-grown w w' g a h = record {
    tasks = λ task m. elim (a.tasks task m) [
      | inl old ↦ IsTaskSound-grown w w' task g (h.tasks task old)
      | inr new ↦ new
    ];
    accounts = λ id x e. elim (a.accounts id x e) [
      | inl old ↦ IsRecorded-grown w w' id x g (h.accounts id x old)
      | inr new ↦ new
    ];
    completions = λ email i digest profile at e. elim (a.completions email i digest profile at e) [
      | inl old ↦ g.accounts (uuid i) _ (h.completions email i digest profile at old)
      | inr new ↦ new
    ];
    profiles = λ email i profile accepted. elim (a.profiles email i profile accepted) [
      | inl old ↦ h.profiles email i profile old
      | inr new ↦ new
    ];
  }

  pub Same-Grows : (w w' : W) → Same store w w' → Grows store uuid services w w'
  Same-Grows w w' s = record {
    reservations = λ email i profile a.
        subst (λ (r : EmailReservation). HasAccepted r.phase i profile) (sym (s.reservations email))
          a;
    accounts = λ id x e. ap (λ (r : UserAccount). r.created) (s.accounts id) ∙ e;
    tasks = λ task m. subst (In task) (sym s.tasks) m;
  }

  Same-AddsSound : (w w' : W) → Same store w w' → AddsSound store uuid services w w'
  Same-AddsSound w w' s = record {
    tasks = λ task m. inl (subst (In task) s.tasks m);
    accounts = λ id x e. inl (ap (λ (r : UserAccount). r.created) (sym (s.accounts id)) ∙ e);
    completions = λ email i digest profile at e.
        inl (ap (λ (r : EmailReservation). r.phase) (sym (s.reservations email)) ∙ e);
    profiles = λ email i profile a.
        inl (
          subst (λ (r : EmailReservation). HasAccepted r.phase i profile) (s.reservations email) a);
  }

  pub Same-IsSound :
      (w w' : W) → Same store w w' → IsSound store uuid services w → IsSound store uuid services w'
  Same-IsSound w w' s = IsSound-grown w w' (Same-Grows w w' s) (Same-AddsSound w w' s)
