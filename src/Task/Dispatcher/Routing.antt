-- ===== src/Task/Dispatcher/Routing.antt =====
-- The routes of a dispatcher against the formats of its adapters
-- (cqrs-runtime/src/task/handling/dispatcher.rs).
use account_management_servi.Base.{
  ℕ, suc, ◌+◌, ◌≡◌, ◌≢◌, ◌↔◌, refl, ◌⊎◌, inl, inr, Bool, true, false, ◌||◌, Option, none, some,
  List, [], ◌∷◌, ◌++◌, map, text, Result-cases, ok, rejects, get_elem?, arith, All, In,
  if◌then◌else◌, Bool-cases, ap, ◌∙◌, sym,
}
use mathlib.Core.Path.{subst}
use mathlib.Core.List.{append-nil, append_assoc}
use account_management_servi.Task.Data.{TaskFormat, format_eq, TaskAttempt}
use account_management_servi.Task.Dispatcher.{
  permanent, TaskAdapter, TaskDispatcher, Routes, get, enumerated, with_index, register, try_new,
  assembled, dispatch, outcome,
}

-- The format stands in the list.
unfoldable pub has_format : TaskFormat → List TaskFormat → Bool
has_format f [] = false
has_format f (g ∷ gs) = format_eq g f || has_format f gs

-- The index that the last pair of a format gives, or the one given.
find_last : TaskFormat → List (ℕ × TaskFormat) → Option ℕ → Option ℕ
find_last f [] o = o
find_last f ((i, g) ∷ ps) o = find_last f ps (if format_eq g f then some i else o)

register-get :
    (ps : List (ℕ × TaskFormat)) (routes routes' : Routes) (formats formats' : List TaskFormat)
    (f : TaskFormat)
    → register ps routes formats ≡ ok (routes', formats')
    → get routes' f ≡ find_last f ps (get routes f)
unfolding register find_last get
register-get [] routes routes' formats formats' f h = ground (arith, h)
register-get ((i, g) ∷ ps) routes routes' formats formats' f h =
    register-get ps ((g, i) ∷ routes) routes' (formats ++ g ∷ []) formats' f (ground (arith, h))

last_wins :
    (a b : Bool) (i : ℕ) (o : Option ℕ)
    → (if b then some i else (if a then some i else o)) ≡ (if a || b then some i else o)
last_wins a b i o = ground arith

find_last-with_index :
    (i : ℕ) (f : TaskFormat) (fs : List TaskFormat) (ps : List (ℕ × TaskFormat)) (o : Option ℕ)
    → find_last f (with_index i fs ++ ps) o ≡ find_last f ps (if has_format f fs then some i else o)
unfolding find_last has_format
find_last-with_index i f [] ps o = refl
find_last-with_index i f (g ∷ fs) ps o =
    find_last-with_index i f fs ps (if format_eq g f then some i else o)
    ∙ ap (find_last f ps) (last_wins (format_eq g f) (has_format f fs) i o)

module _ {V W : Type 0} where
  abbrev pub serves : TaskFormat → TaskAdapter V W → Bool
  serves f a = has_format f a.formats

  -- Where a format's index leads: to an adapter that serves it, or to the index given, when none does.
  Leads : ℕ → TaskFormat → List (TaskAdapter V W) → Option ℕ → Option ℕ → Type 0
  Leads i f xs o o' =
      ((a : TaskAdapter V W) × (k : ℕ) × (o' ≡ some (i + k))
        × (get_elem? xs k ≡ some a)
        × (serves f a ≡ true)
        × In a xs)
      ⊎ ((o' ≡ o) × All (λ a. serves f a ≡ false) xs)

  find_last-Leads :
      (i : ℕ) (f : TaskFormat) (xs : List (TaskAdapter V W)) (o : Option ℕ)
      → Leads i f xs o (find_last f (enumerated i xs) o)
  unfolding Leads enumerated find_last
  find_last-Leads i f [] o = inr (refl, tt)
  find_last-Leads i f (a ∷ xs) o =
      let o₁ = if serves f a then some i else o in
      let same = find_last-with_index i f a.formats (enumerated (suc i) xs) o in
      elim (find_last-Leads (suc i) f xs o₁) [
        | inl (b, k, e, g, s, m) ↦ inl (b, suc k, same ∙ e ∙ ground arith, g, s, inr m)
        | inr (e, none_serves) ↦ elim (Bool-cases (serves f a)) [
          | inl s ↦ inl (a, 0, same ∙ e ∙ ground (arith, s), refl, s, inl refl)
          | inr s ↦ inr (same ∙ e ∙ ground (arith, s), (s, none_serves))
        ]
      ]

  pub try_new_routes :
      (adapters : List (TaskAdapter V W)) (d : TaskDispatcher V W)
      → try_new adapters ≡ ok d
      → (register (enumerated 0 adapters) [] [] ≡ ok (d.routes, d.formats))
        × (d.adapters ≡ adapters)
  unfolding try_new
  try_new_routes [] d h = absurd (ground (arith, h))
  try_new_routes (a ∷ xs) d h = elim (Result-cases (register (enumerated 0 (a ∷ xs)) [] [])) [
    | inl (e, p) ↦ absurd (ground (arith, p, h))
    | inr ((routes, []), p) ↦ absurd (ground (arith, p, h))
    | inr ((routes, f ∷ fs), p) ↦ (ground (arith, p, h), ground (arith, p, h))
  ]

  -- A dispatcher that was built from adapters passes a delivery to an adapter among them that names
  -- the delivery's format, unchanged; if none of them names it, the delivery is rejected for good
  -- as unsupported and nothing is called.
  pub dispatch-serves :
      (adapters : List (TaskAdapter V W)) (d : TaskDispatcher V W) (delivery : TaskAttempt V)
      (w : W)
      → try_new adapters ≡ ok d
      → ((a : TaskAdapter V W) × In a adapters
          × (serves delivery.format a ≡ true)
          × (dispatch d delivery w ≡ outcome (a.invoke delivery w)))
        ⊎ (All (λ a. serves delivery.format a ≡ false) adapters
            × (dispatch d delivery w ≡ (rejects (permanent (text "unsupported task format")), w)))
  unfolding dispatch Leads
  dispatch-serves adapters d delivery w h =
      let (q, e) = try_new_routes adapters d h in
      let r = register-get (enumerated 0 adapters) [] d.routes [] d.formats delivery.format q in
      elim (find_last-Leads 0 delivery.format adapters none) [
        | inl (a, k, p, g, s, m) ↦ inl (a, m, s, ground (arith, r, p, g, e))
        | inr (p, n) ↦ inr (n, ground (arith, r, p))
      ]

-- No two formats of the list are equal.
abbrev pub FormatsDistinct : List TaskFormat → Type 0
FormatsDistinct [] = Unit
FormatsDistinct (f ∷ fs) = All (λ g. format_eq f g ≡ false) fs × FormatsDistinct fs

abbrev pub formats_of : List (ℕ × TaskFormat) → List TaskFormat
formats_of ps = map (λ p. p.1) ps

-- Every pair's format is new to the routes.
AllNew : Routes → List (ℕ × TaskFormat) → Type 0
AllNew routes [] = Unit
AllNew routes ((i, f) ∷ ps) = (get routes f ≡ none) × AllNew routes ps

AllNew-add :
    (ps : List (ℕ × TaskFormat)) (routes : Routes) (i : ℕ) (f : TaskFormat)
    → AllNew ((f, i) ∷ routes) ps
    → AllNew routes ps × All (λ g. format_eq f g ≡ false) (formats_of ps)
unfolding AllNew get
AllNew-add [] routes i f h = (tt, tt)
AllNew-add ((j, g) ∷ ps) routes i f h = ground (arith, h.0, AllNew-add ps routes i f h.1)

AllNew-join :
    (ps : List (ℕ × TaskFormat)) (routes : Routes) (i : ℕ) (f : TaskFormat)
    → AllNew routes ps
    → All (λ g. format_eq f g ≡ false) (formats_of ps)
    → AllNew ((f, i) ∷ routes) ps
unfolding AllNew get
AllNew-join [] routes i f h k = tt
AllNew-join ((j, g) ∷ ps) routes i f h k =
    ground (arith, h.0, k.0, AllNew-join ps routes i f h.1 k.1)

register_sound :
    (ps : List (ℕ × TaskFormat)) (routes routes' : Routes) (formats formats' : List TaskFormat)
    → register ps routes formats ≡ ok (routes', formats')
    → AllNew routes ps × FormatsDistinct (formats_of ps) × (formats' ≡ formats ++ formats_of ps)
unfolding register AllNew
register_sound [] routes routes' formats formats' h = ground (arith, h, append-nil formats)
register_sound ((i, f) ∷ ps) routes routes' formats formats' h =
    let (new, distinct, same) =
      register_sound ps ((f, i) ∷ routes) routes' (formats ++ f ∷ []) formats'
        (ground (arith, h)) in
    let (new', other) = AllNew-add ps routes i f new in
    (
      (ground (arith, h), new'),
      (other, distinct),
      same ∙ append_assoc formats (f ∷ []) (formats_of ps),
    )

register_complete :
    (ps : List (ℕ × TaskFormat)) (routes : Routes) (formats : List TaskFormat)
    → AllNew routes ps
    → FormatsDistinct (formats_of ps)
    → (routes' : Routes) × (register ps routes formats ≡ ok (routes', formats ++ formats_of ps))
unfolding register AllNew
register_complete [] routes formats h k = (routes, ground (arith, append-nil formats))
register_complete ((i, f) ∷ ps) routes formats h k =
    let (routes', e) =
      register_complete ps ((f, i) ∷ routes) (formats ++ f ∷ []) (AllNew-join ps routes i f h.1 k.0)
        k.1 in
    (routes', ground (arith, h.0, e, append_assoc formats (f ∷ []) (formats_of ps)))

formats_of-with_index :
    (i : ℕ) (fs : List TaskFormat) (ps : List (ℕ × TaskFormat))
    → formats_of (with_index i fs ++ ps) ≡ fs ++ formats_of ps
formats_of-with_index i [] ps = refl
formats_of-with_index i (f ∷ fs) ps = ap (λ gs. f ∷ gs) (formats_of-with_index i fs ps)

all_new : (ps : List (ℕ × TaskFormat)) → AllNew [] ps
unfolding AllNew get
all_new [] = tt
all_new ((i, f) ∷ ps) = (refl, all_new ps)

module _ {V W : Type 0} where
  -- The formats of the adapters, in their order.
  unfoldable pub all_formats : List (TaskAdapter V W) → List TaskFormat
  all_formats [] = []
  all_formats (a ∷ xs) = a.formats ++ all_formats xs

  enumerated-all_formats :
      (i : ℕ) (xs : List (TaskAdapter V W)) → formats_of (enumerated i xs) ≡ all_formats xs
  unfolding enumerated all_formats
  enumerated-all_formats i [] = refl
  enumerated-all_formats i (a ∷ xs) =
      formats_of-with_index i a.formats (enumerated (suc i) xs)
      ∙ ap (λ fs. a.formats ++ fs) (enumerated-all_formats (suc i) xs)

  try_new_nonempty :
      (adapters : List (TaskAdapter V W)) (d : TaskDispatcher V W)
      → try_new adapters ≡ ok d
      → d.formats ≢ []
  unfolding try_new
  try_new_nonempty [] d h = absurd (ground (arith, h))
  try_new_nonempty (a ∷ xs) d h = elim (Result-cases (register (enumerated 0 (a ∷ xs)) [] [])) [
    | inl (e, p) ↦ absurd (ground (arith, p, h))
    | inr ((routes, []), p) ↦ absurd (ground (arith, p, h))
    | inr ((routes, f ∷ fs), p) ↦ ground (arith, p, h)
  ]

  assembled_ok :
      (adapters : List (TaskAdapter V W)) (routes : Routes) (fs : List TaskFormat)
      → fs ≢ []
      → (d : TaskDispatcher V W) × (assembled adapters (ok (routes, fs)) ≡ ok d) × (d.formats ≡ fs)
  assembled_ok adapters routes [] h = absurd (h refl)
  assembled_ok adapters routes (f ∷ fs) h = (_, refl, refl)

  accepted :
      (adapters : List (TaskAdapter V W)) (routes : Routes)
      → register (enumerated 0 adapters) [] [] ≡ ok (routes, all_formats adapters)
      → all_formats adapters ≢ []
      → (d : TaskDispatcher V W) × (try_new adapters ≡ ok d) × (d.formats ≡ all_formats adapters)
  unfolding try_new all_formats
  accepted [] routes e h = absurd (h refl)
  accepted (a ∷ xs) routes e h =
      let (d, p, q) = assembled_ok (a ∷ xs) routes (all_formats (a ∷ xs)) h in
      (d, ap (assembled (a ∷ xs)) e ∙ p, q)

  -- Adapters make a dispatcher exactly if they name at least one format and no format twice; its
  -- formats are theirs, in their order.
  pub try_new_iff :
      (adapters : List (TaskAdapter V W))
      → ((d : TaskDispatcher V W) × (try_new adapters ≡ ok d) × (d.formats ≡ all_formats adapters))
        ↔ (FormatsDistinct (all_formats adapters) × (all_formats adapters ≢ []))
  try_new_iff adapters =
      let same = enumerated-all_formats 0 adapters in
      (
        (λ (d, h, q).
            let (e, _) = try_new_routes adapters d h in
            let (_, distinct, _) =
              register_sound (enumerated 0 adapters) [] d.routes [] d.formats e in
            (subst FormatsDistinct same distinct, λ n. try_new_nonempty adapters d h (q ∙ n))),
        (λ (distinct, n).
            let (routes, e) =
              register_complete (enumerated 0 adapters) [] [] (all_new (enumerated 0 adapters))
                (subst FormatsDistinct (sym same) distinct) in
            accepted adapters routes (e ∙ ap (λ fs. ok (routes, fs)) same) n),
      )
