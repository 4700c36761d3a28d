-- ===== src/Batch/Resume/Changes.antt =====
-- backend/app/core/batch_runner.py: a run is resumed only by the batch that would mint it.
use codenames_llm_bias.Shared.{
  ℕ, ◌≡◌, ◌↔◌, refl, Bool, true, false, not, Option, none, some, List, [], ◌∷◌, ◌++◌, map,
  if◌then◌else◌, ◌==◌, Eq, nat_eq, text_eq, same_texts, Text, get_item, sort, text_leb, All, arith,
}
use codenames_llm_bias.Schedule.{SeatSpec, model_id, BatchCell}
use codenames_llm_bias.Batch.Loop.{RecordedGame}
use codenames_llm_bias.Batch.Resume.{
  StoredRun, ResumeProblem, foreign_games, moved_games, problem_if, problem_of, snapshot_models,
  is_some_of, foreign, moved, resume_problems,
}

same_texts_iff : (xs ys : List Text) → (same_texts xs ys ≡ true) ↔ (xs ≡ ys)
same_texts_iff [] [] = ground arith
same_texts_iff [] (y ∷ ys) = ground arith
same_texts_iff (x ∷ xs) [] = ground arith
same_texts_iff (x ∷ xs) (y ∷ ys) = ground (arith, text_eq.decides x y, same_texts_iff xs ys)

is_some_of_iff :
    {A : Type 0} ⦃e : Eq A⦄ (x : Option A) (y : A) → (is_some_of x y ≡ true) ↔ (x ≡ some y)
is_some_of_iff ⦃e⦄ none y = ground arith
is_some_of_iff ⦃e⦄ (some x) y = ground (arith, e.decides x y)

-- A game of the schedule that is recorded belongs to the run, on the board of the schedule.
abbrev pub IsOwn : Text → BatchCell → Option RecordedGame → Type 0
IsOwn run_id c none = Unit
IsOwn run_id c (some game) = (game.run_id ≡ some run_id) × (game.board_id ≡ c.board_id)

module _ (run_id : Text) (recorded : List (Text × RecordedGame)) where
  abbrev pub AllOwn : List BatchCell → Type 0
  AllOwn schedule = All (λ c. IsOwn run_id c (get_item c.game_id recorded)) schedule

  games_lem :
      (cs : List BatchCell)
      → ((foreign run_id recorded cs ≡ []) × (moved run_id recorded cs ≡ [])) ↔ AllOwn cs
  unfolding foreign moved
  games_lem [] = (λ h. tt, λ h. (refl, refl))
  games_lem (c ∷ cs) = by_game (get_item c.game_id recorded) (games_lem cs)
    where
      by_game :
          (g : Option RecordedGame)
          → ((foreign run_id recorded cs ≡ []) × (moved run_id recorded cs ≡ [])) ↔ AllOwn cs
          → (((elim g as (λ x. List ℕ) [
            | none ↦ foreign run_id recorded cs
            | some game ↦
                let rest = foreign run_id recorded cs in
                if not (is_some_of game.run_id run_id) then c.game_index ∷ rest else rest
          ])
                ≡ [])
              × ((elim g as (λ x. List ℕ) [
                | none ↦ moved run_id recorded cs
                | some game ↦
                    let rest = moved run_id recorded cs in
                    if not (is_some_of game.run_id run_id)
                    then rest
                    else if not (game.board_id == c.board_id)
                    then c.game_index ∷ rest
                    else rest
              ])
                  ≡ []))
            ↔ (IsOwn run_id c g × AllOwn cs)
      by_game none h = (λ q. (tt, h.0 q), λ q. h.1 q.1)
      by_game (some game) h = (
        λ q. ground (
          arith,
          q.0,
          q.1,
          h.0,
          is_some_of_iff game.run_id run_id,
          text_eq.decides game.board_id c.board_id,
        ),
        λ q. ground (
          arith,
          q.0,
          q.1,
          h.1,
          is_some_of_iff game.run_id run_id,
          text_eq.decides game.board_id c.board_id,
        ),
      )

append_empty : {A : Type 0} (xs ys : List A) → (xs ++ ys ≡ []) ↔ ((xs ≡ []) × (ys ≡ []))
append_empty [] ys = (λ q. (refl, q), λ q. q.1)
append_empty (x ∷ xs) ys = ground arith

problem_if_empty : (b : Bool) (p : ResumeProblem) → (problem_if b p ≡ []) ↔ (b ≡ false)
problem_if_empty b p = ground arith

problem_of_empty : (p : List ℕ → ResumeProblem) (ns : List ℕ) → (problem_of p ns ≡ []) ↔ (ns ≡ [])
problem_of_empty p ns = ground arith

module _ {T : Type 0} ⦃eq : Eq T⦄ (run : StoredRun T) where
  abbrev pub minted_models : List Text
  minted_models =
      map (λ (e : Text × Option Text). e.0) (snapshot_models run.model_registry_snapshot)

  -- The run is the one the batch would mint, and its games are where the schedule puts them.
  pub record IsSameBatch (schedule : List BatchCell) (models : List SeatSpec) (master_seed : ℕ)
      (temperature : T) (template_fingerprint : Text) (recorded : List (Text × RecordedGame))
      : Type 0 where
    pub seed : run.master_seed ≡ some master_seed
    pub heat : run.temperature ≡ temperature
    pub templates : run.prompt_template_version ≡ some template_fingerprint
    pub same_models : sort text_leb minted_models ≡ sort text_leb (map model_id models)
    pub games : AllOwn run.run_id recorded schedule

  -- A resume meets no problem exactly when the run has the seed, the temperature, the templates and the
  -- models of the batch, and each game of the schedule that is recorded is recorded under the run
  -- and on the board of the schedule.
  pub resume_problems_iff :
      (schedule : List BatchCell) (models : List SeatSpec) (master_seed : ℕ) (temperature : T)
      (template_fingerprint : Text) (recorded : List (Text × RecordedGame))
      → (resume_problems run schedule models master_seed temperature template_fingerprint recorded
          ≡ [])
        ↔ IsSameBatch schedule models master_seed temperature template_fingerprint recorded
  unfolding resume_problems
  resume_problems_iff schedule models master_seed temperature template_fingerprint recorded =
      let (no_games, games) = games_lem run.run_id recorded schedule in
      (
        λ q.
            let (q1, r1) = (append_empty _ _).0 q in
            let (q2, r2) = (append_empty _ _).0 r1 in
            let (q3, r3) = (append_empty _ _).0 r2 in
            let (q4, r4) = (append_empty _ _).0 r3 in
            let (q5, q6) = (append_empty _ _).0 r4 in
            record {
              seed = (is_some_of_iff _ _).0 (off ((problem_if_empty _ _).0 q1));
              heat = (eq.decides _ _).0 (off ((problem_if_empty _ _).0 q2));
              templates = (is_some_of_iff _ _).0 (off ((problem_if_empty _ _).0 q3));
              same_models = (same_texts_iff _ _).0 (off ((problem_if_empty _ _).0 q4));
              games =
                  no_games (
                    (problem_of_empty foreign_games _).0 q5,
                    (problem_of_empty moved_games _).0 q6,
                  );
            },
        λ s. (append_empty _ _).1 (
          (problem_if_empty _ _).1 (on ((is_some_of_iff _ _).1 s.seed)),
          (append_empty _ _).1 (
            (problem_if_empty _ _).1 (on ((eq.decides _ _).1 s.heat)),
            (append_empty _ _).1 (
              (problem_if_empty _ _).1 (on ((is_some_of_iff _ _).1 s.templates)),
              (append_empty _ _).1 (
                (problem_if_empty _ _).1 (on ((same_texts_iff _ _).1 s.same_models)),
                (append_empty _ _).1 (
                  (problem_of_empty foreign_games _).1 (games s.games).0,
                  (problem_of_empty moved_games _).1 (games s.games).1,
                ),
              ),
            ),
          ),
        ),
      )
    where
      off : {b : Bool} → not b ≡ false → b ≡ true
      off {b} h = ground (arith, h)

      on : {b : Bool} → b ≡ true → not b ≡ false
      on {b} h = ground (arith, h)
