-- ===== src/Filters/Laws.antt =====
-- What the filters accept.
use golagram.Base.{
  ℕ, ◌≡◌, ◌↔◌, ◌⊎◌, inl, inr, ◌∙◌, sym, ap, refl, Bool, true, false, not, List, [], ◌∷◌, map,
  Option, none, some, text_eq_iff, All, Bool-cases, Option-cases, arith, some_inj,
}
use golagram.Commands.{CommandObject}
use golagram.Router.{all_filters}
use golagram.Update.{Update}
use golagram.Update.Context.{any_message, ctx_command}
use golagram.Filters.{
  Ctx, Test, equal_fold, mention_matches, command_matches, filter_command, and_filters, or_filters,
  not_filter,
}

-- Go's filters on a registration run in order over the state; tests that leave it alone are such.
abbrev pub pure_filters : {S : Type 0} → List (S → Bool) → List (S → Bool × S)
pure_filters [] = []
pure_filters (f ∷ fs) = (λ s. (f s, s)) ∷ pure_filters fs

abbrev pub negated : List Test → List Test
negated [] = []
negated (f ∷ fs) = not_filter f ∷ negated fs

and_filters-registered :
    (fs : List Test) (c : Ctx) → all_filters (pure_filters fs) c ≡ (and_filters fs c, c)
unfolding all_filters and_filters
and_filters-registered [] c = refl
and_filters-registered (f ∷ fs) c = elim (Bool-cases (f c)) [
  | inl h ↦ rw h (and_filters-registered fs c)
  | inr h ↦ rw h refl
]

and_filters-negated :
    (fs : List Test) (c : Ctx) → and_filters (negated fs) c ≡ not (or_filters fs c)
unfolding and_filters or_filters not_filter
and_filters-negated [] c = refl
and_filters-negated (f ∷ fs) c = ground (arith, and_filters-negated fs c)

and_filters-All :
    (fs : List Test) (c : Ctx) → (and_filters fs c ≡ true) ↔ All (λ (f : Test). f c ≡ true) fs
unfolding and_filters
and_filters-All [] c = (λ h. tt, λ h. refl)
and_filters-All (f ∷ fs) c = ground (arith, and_filters-All fs c)

-- And holds exactly when all its filters do, a registration combines its filters the same way, and
-- the negation of Or is And of the negations.
and_filters-or_filters :
    (fs : List Test) (c : Ctx)
    → ((and_filters fs c ≡ true) ↔ All (λ (f : Test). f c ≡ true) fs)
      × ((all_filters (pure_filters fs) c ≡ (and_filters fs c, c))
          × (not_filter (or_filters fs) c ≡ and_filters (negated fs) c))
unfolding not_filter
and_filters-or_filters fs c =
    (and_filters-All fs c, (and_filters-registered fs c, sym (and_filters-negated fs c)))

-- The command of an update that a filter for a command takes on a bot.
abbrev pub IsAddressed : (ℕ → ℕ) → List ℕ → Ctx → CommandObject → Type 0
IsAddressed fold command c cmd =
    (ctx_command c.update ≡ some cmd)
    × ((equal_fold fold cmd.command command ≡ true)
        × ((cmd.mention ≡ []) ⊎ (equal_fold fold cmd.mention c.bot_username ≡ true)))

mention_matches_iff :
    (fold : ℕ → ℕ) (mention bot : List ℕ)
    → (mention_matches fold mention bot ≡ true)
      ↔ ((mention ≡ []) ⊎ (equal_fold fold mention bot ≡ true))
mention_matches_iff fold [] bot = (λ h. inl refl, λ h. refl)
mention_matches_iff fold (m ∷ mention) bot = (λ h. inr h, λ h. elim h [ inl e ↦ cc | inr e ↦ e ])

filter_command-ctx_command :
    (fold : ℕ → ℕ) (command : List ℕ) (c : Ctx)
    → filter_command fold command c
      ≡ command_matches fold command c.bot_username (ctx_command c.update)
unfolding filter_command ctx_command command_matches
filter_command-ctx_command fold command c = elim (Option-cases (any_message c.update)) [
  | inl h ↦ rw h refl
  | inr h ↦ rw h.1 refl
]

command_matches-some :
    (fold : ℕ → ℕ) (command bot : List ℕ) (o : Option CommandObject)
    → command_matches fold command bot o ≡ true
    → (cmd : CommandObject) × ((o ≡ some cmd)
        × ((equal_fold fold cmd.command command ≡ true)
            × ((cmd.mention ≡ []) ⊎ (equal_fold fold cmd.mention bot ≡ true))))
unfolding command_matches
command_matches-some fold command bot none h = cc
command_matches-some fold command bot (some cmd) h =
    (cmd, (refl, ground (arith, mention_matches_iff fold cmd.mention bot)))

-- FilterCommand holds exactly when Ctx.Command reads a command of that name, up to case, which has no
-- mention or mentions the bot, up to case.
pub filter_command-IsAddressed :
    (fold : ℕ → ℕ) (command : List ℕ) (c : Ctx)
    → (filter_command fold command c ≡ true)
      ↔ ((cmd : CommandObject) × IsAddressed fold command c cmd)
unfolding command_matches
filter_command-IsAddressed fold command c = (
  λ h.
      command_matches-some fold command c.bot_username (ctx_command c.update)
        (sym (filter_command-ctx_command fold command c) ∙ h),
  λ (cmd, (e, (name, to))).
      filter_command-ctx_command fold command c
      ∙ (ap (command_matches fold command c.bot_username) e
          ∙ rw name ((mention_matches_iff fold cmd.mention c.bot_username).1 to)),
)

equal_fold-join :
    (fold : ℕ → ℕ) (s t t' : List ℕ)
    → equal_fold fold s t ≡ true
    → equal_fold fold s t' ≡ true
    → equal_fold fold t t' ≡ true
unfolding equal_fold
equal_fold-join fold s t t' h h' = (text_eq_iff (map fold t) (map fold t')).1 (
    sym ((text_eq_iff (map fold s) (map fold t)).0 h)
    ∙ (text_eq_iff (map fold s) (map fold t')).0 h')

-- Two bots in one group whose usernames differ also up to case: a command that a filter takes on
-- both of them mentions neither, it has no mention.
filter_command-two_bots :
    (fold : ℕ → ℕ) (command bot bot' : List ℕ) (u : Update) (cmd : CommandObject)
    → equal_fold fold bot bot' ≡ false
    → ctx_command u ≡ some cmd
    → filter_command fold command (record { update = u; bot_username = bot }) ≡ true
    → filter_command fold command (record { update = u; bot_username = bot' }) ≡ true
    → cmd.mention ≡ []
filter_command-two_bots fold command bot bot' u cmd differ e h h' =
    let (a, (ea, (na, ma))) = (filter_command-IsAddressed fold command _).0 h in
    let (b, (eb, (nb, mb))) = (filter_command-IsAddressed fold command _).0 h' in
    let same : a ≡ cmd = some_inj (sym ea ∙ e) in
    let same' : b ≡ cmd = some_inj (sym eb ∙ e) in
    elim ma [
      | inl q ↦ ap (λ (x : CommandObject). x.mention) (sym same) ∙ q
      | inr q ↦ elim mb [
        | inl q' ↦ ap (λ (x : CommandObject). x.mention) (sym same') ∙ q'
        | inr q' ↦
            (let agree =
                equal_fold-join fold cmd.mention bot bot'
                  (ap (λ (x : CommandObject). equal_fold fold x.mention bot) (sym same) ∙ q)
                  (ap (λ (x : CommandObject). equal_fold fold x.mention bot') (sym same') ∙ q') in
              cc)
      ]
    ]
