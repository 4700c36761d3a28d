-- ===== src/Batch/Resume.antt =====
-- backend/app/core/batch_runner.py: whether a run can be resumed by a batch. The type of the temperature
-- is a parameter. The texts of the reasons are left out.
use codenames_llm_bias.Shared.{
  ℕ, zero, suc, ◌≡◌, ◌≢◌, ◌↔◌, refl, sym, ◌∙◌, inl, inr, Bool, true, false, not, ◌&&◌, ◌||◌,
  Bool-cases, Option, none, some, List, [], ◌∷◌, ◌++◌, map, if◌then◌else◌, ◌==◌, Eq, nat_eq,
  text_eq, same_texts, Text, text_beq, codes, contains, filter, get_item, set_item, dict_from, sort,
  text_leb, All, ends_with, length, arith,
}
use codenames_llm_bias.Schedule.{SeatSpec, model_id, BatchCell}
use codenames_llm_bias.Batch.Loop.{RecordedGame}
pub mod Changes
pub mod Served

-- An entry of a `model_registry_snapshot`.
pub record ModelEntry : Type 0 where
  pub provider : Text
  pub model_name : Text
  pub identity : Option Text

pub record StoredRun (T : Type 0) : Type 0 where
  pub run_id : Text
  pub master_seed : Option ℕ
  pub temperature : T
  pub prompt_template_version : Option Text
  pub code_version : Option Text
  pub model_registry_snapshot : Option (List (Text × ModelEntry))
  pub stimulus_manifest : Option (List (Text × Text))

-- The items of `{f"{provider}:{model_name}": identity for entry in (snapshot or {}).values()}`.
abbrev pub snapshot_items : List (Text × ModelEntry) → List (Text × Option Text)
snapshot_items [] = []
snapshot_items ((k, e) ∷ entries) =
    (e.provider ++ (b':' ∷ e.model_name), e.identity) ∷ snapshot_items entries

unfoldable pub snapshot_models : Option (List (Text × ModelEntry)) → List (Text × Option Text)
snapshot_models none = []
snapshot_models (some entries) = dict_from [] (snapshot_items entries)

-- `x == y` where the left side may be None.
abbrev pub is_some_of : {A : Type 0} → ⦃e : Eq A⦄ → Option A → A → Bool
is_some_of none y = false
is_some_of (some x) y = x == y

abbrev pub same_option : Option Text → Option Text → Bool
same_option none none = true
same_option (some x) (some y) = x == y
same_option _ _ = false

-- The indices of the games that are in the way: recorded under another run, or on another board.
pub data ResumeProblem : Type 0 where
  other_seed other_temperature other_templates other_models : ResumeProblem
  foreign_games moved_games : List ℕ → ResumeProblem

-- `if test: problems.append(...)`
abbrev pub problem_if : Bool → ResumeProblem → List ResumeProblem
problem_if test p = if test then p ∷ [] else []

-- `if games: problems.append(...)`
abbrev pub problem_of : (List ℕ → ResumeProblem) → List ℕ → List ResumeProblem
problem_of p [] = []
problem_of p (n ∷ ns) = p (n ∷ ns) ∷ []

module _ (run_id : Text) (recorded : List (Text × RecordedGame)) where
  -- The loop over the schedule: the foreign games, and those that moved.
  unfoldable pub foreign : List BatchCell → List ℕ
  foreign [] = []
  foreign (c ∷ cs) = elim (get_item c.game_id recorded) [
    | none ↦ foreign cs
    | some game ↦
        let rest = foreign cs in
        if not (is_some_of game.run_id run_id) then c.game_index ∷ rest else rest
  ]

  unfoldable pub moved : List BatchCell → List ℕ
  moved [] = []
  moved (c ∷ cs) = elim (get_item c.game_id recorded) [
    | none ↦ moved cs
    | some game ↦
        let rest = moved cs in
        if not (is_some_of game.run_id run_id)
        then rest
        else if not (game.board_id == c.board_id)
        then c.game_index ∷ rest
        else rest
  ]

-- `d.get(m)`: no entry and an entry without an identity read alike.
abbrev pub identity_of : Text → List (Text × Option Text) → Option Text
identity_of m d = elim (get_item m d) [ none ↦ none | some i ↦ i ]

-- The boards that changed, in order; `run.stimulus_manifest or {}` may be empty.
unfoldable pub changed_boards : List (Text × Text) → List (Text × Text) → List Text
changed_boards minted manifest =
    let keys = map (λ (e : Text × Text). e.0) minted in
    let all_keys =
      keys ++ filter (λ k. not (contains k keys)) (map (λ (e : Text × Text). e.0) manifest) in
    sort text_leb
      (filter (λ k. not (same_option (get_item k minted) (get_item k manifest))) all_keys)

module _ {T : Type 0} ⦃eq : Eq T⦄ (run : StoredRun T) where
  unfoldable pub resume_problems :
      List BatchCell
      → List SeatSpec
      → ℕ
      → T
      → Text
      → List (Text × RecordedGame)
      → List ResumeProblem
  resume_problems schedule models master_seed temperature template_fingerprint recorded =
      let minted =
        sort text_leb
          (map (λ (e : Text × Option Text). e.0) (snapshot_models run.model_registry_snapshot)) in
      let now = sort text_leb (map model_id models) in
      problem_if (not (is_some_of run.master_seed master_seed)) other_seed
      ++ (problem_if (not (run.temperature == temperature)) other_temperature
          ++ (problem_if (not (is_some_of run.prompt_template_version template_fingerprint))
                other_templates
              ++ (problem_if (not (same_texts minted now)) other_models
                  ++ (problem_of foreign_games (foreign run.run_id recorded schedule)
                      ++ problem_of moved_games (moved run.run_id recorded schedule)))))

  unfoldable pub served_model_problems : Option (List (Text × ModelEntry)) → List Text
  served_model_problems served =
      let minted = snapshot_models run.model_registry_snapshot in
      let now = snapshot_models served in
      filter (λ m. not (same_option (identity_of m now) (identity_of m minted)))
        (sort text_leb (map (λ (e : Text × Option Text). e.0) minted))

  unfoldable pub manifest_problems : List (Text × Text) → List Text
  manifest_problems manifest = elim run.stimulus_manifest [
    | none ↦ []
    | some minted ↦ elim minted [ [] ↦ [] | e ∷ es ↦ changed_boards (e ∷ es) manifest ]
  ]

-- What a resume cannot vouch for.
pub data CodeWarning : Type 0 where
  other_code uncommitted : CodeWarning

unfoldable pub code_change_warning : Option Text → Option Text → Option CodeWarning
code_change_warning minted current =
    if not (same_option current minted) then some other_code else elim current [
      | none ↦ none
      | some c ↦ if ends_with (codes "-dirty") c then some uncommitted else none
    ]
