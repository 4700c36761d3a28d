-- ===== src/Game/Runs.antt =====
-- backend/app/core/game_runner.py: the loop of run_single_game against the cap of dispatches.
use codenames_llm_bias.Shared.{
  ℕ, zero, suc, ◌≤◌, ◌≡◌, ◌≢◌, refl, Bool, true, false, none, Text, All, arith,
}
use codenames_llm_bias.Schemas.Card.{Seat, seat0, seat1}
use codenames_llm_bias.Schemas.Board.{Board, validate}
use codenames_llm_bias.Schemas.State.{
  GamePhase, giving_clue, guessing, game_over, sudden_death_llm, sudden_death_human,
}
use codenames_llm_bias.Validator.{IsValidClue}
use codenames_llm_bias.Engine.{Engine, new_engine}
use codenames_llm_bias.Recorder.{new_recorder}
use codenames_llm_bias.Guard.{new_guard}
use codenames_llm_bias.Invariants.Sound.{IsSound}
use codenames_llm_bias.Invariants.Start.{IsFresh, new_engine-IsSound}
use codenames_llm_bias.Play.Left.{dispatches_left}
use codenames_llm_bias.Game.Table.{Table, unexpected_phase, Outcome, done, raised, Act, ◌>>◌}
use codenames_llm_bias.Game.Service.{Model}
use codenames_llm_bias.Game.Conductor.{conduct_clue, conduct_guess, conduct_sd_guess}
use codenames_llm_bias.Game.Runner.{
  Store, max_dispatches, flush_if_over, dispatch_phase, check_running, game_loop, play_game,
}
use codenames_llm_bias.Game.Onward.{is_expected, IsGood, IsOnward, left, pure-IsSteady}
use codenames_llm_bias.Game.Yields.{
  Post, Yields, >>=-Yields, IsQuiet, pure-IsQuiet, quiet->>=-Yields, if-Yields,
}
use codenames_llm_bias.Game.Watch.{check_guard-IsQuiet, flush_if_over-IsQuiet}
use codenames_llm_bias.Game.Below.{Below, quiet-Below, same_left}
use codenames_llm_bias.Game.Dispatch.{
  conduct_clue-Yields, conduct_guess-Yields, conduct_sd_guess-Yields,
}

-- The game is over on this table.
abbrev pub IsFinished : {A : Type 0} → A → Table → Type 0
IsFinished _ t = t.engine.state.is_game_over ≡ true

left_none : (e : Engine) → IsSound e → dispatches_left e.state ≤ 0 → e.state.is_game_over ≡ true
unfolding dispatches_left
left_none e h l = ground arith

not_over :
    (e : Engine) → IsSound e → e.state.is_game_over ≡ false → e.state.current_phase ≢ game_over
not_over e h n = ground arith

quiet_IsFinished :
    {A : Type 0} (m : Act A) (t : Table)
    → IsQuiet m
    → IsGood t
    → t.engine.state.is_game_over ≡ true
    → Yields t IsFinished (m t)
quiet_IsFinished {A} m t h g o = ((h t g).0, by_outcome (m t) (h t g).1)
  where
    by_outcome : (x : Outcome A × Table) → Post (λ _ t'. t'.engine ≡ t.engine) x → Post IsFinished x
    by_outcome (done a, t') q = rw q o
    by_outcome (raised y, t') q = tt

module _ (store : Store) (persist : Bool) (m : Model) (is_valid : IsValidClue) where
  -- A dispatch of a running game, with a sound engine and a guard that has seen no breach, leaves
  -- fewer dispatches than before if it completes; if it raises, it does so with an error of the
  -- model, the engine, the record or the writer. Either way the engine stays sound and the guard
  -- without a breach.
  pub dispatch_phase-Yields :
      (t : Table)
      → IsGood t
      → t.engine.state.current_phase ≢ game_over
      → Yields t (Below (left t)) (dispatch_phase store persist m is_valid t)
  unfolding dispatch_phase
  dispatch_phase-Yields t g n = by_phase t.engine.state.current_phase refl
    where
      flush : Act (Unit {0})
      flush = flush_if_over store persist

      flush_quiet : IsQuiet flush
      flush_quiet = flush_if_over-IsQuiet store persist

      by_phase :
          (f : GamePhase)
          → t.engine.state.current_phase ≡ f
          → Yields {A = Unit {0}} t (Below (left t)) (elim f [
            | giving_clue ↦ conduct_clue m is_valid flush t.engine.state.clue_giver t
            | guessing ↦ conduct_guess m is_valid flush t.engine.state.guesser t
            | sudden_death_llm ↦ conduct_sd_guess m is_valid flush seat0 t
            | sudden_death_human ↦ conduct_sd_guess m is_valid flush seat1 t
            | game_over ↦ (raised unexpected_phase, t)
          ])
      by_phase giving_clue q =
          conduct_clue-Yields m is_valid flush flush_quiet t.engine.state.clue_giver t g
      by_phase guessing q =
          conduct_guess-Yields m is_valid flush flush_quiet t.engine.state.guesser t g q
      by_phase sudden_death_llm q = conduct_sd_guess-Yields m is_valid flush flush_quiet seat0 t g n
      by_phase sudden_death_human q =
          conduct_sd_guess-Yields m is_valid flush flush_quiet seat1 t g n
      by_phase game_over q = absurd (n q)

  check_running-IsQuiet : IsQuiet (check_running store persist m is_valid)
  unfolding check_running
  check_running-IsQuiet t g =
      if-Yields t.engine.state.is_game_over _ _ t _ (λ _. pure-IsQuiet tt t g)
        (λ _. check_guard-IsQuiet t g)

  -- From a sound engine and a guard that has seen no breach, the loop with at least as many
  -- dispatches as the game can take returns with the game over, or raises an error of the model,
  -- the engine, the record or the writer: never the cap's.
  pub game_loop-Yields :
      (n : ℕ) (t : Table)
      → IsGood t
      → left t ≤ n
      → Yields t IsFinished (game_loop store persist m is_valid n t)
  unfolding game_loop
  game_loop-Yields zero t g l =
      let o = left_none t.engine g.sound l in
      if-Yields t.engine.state.is_game_over _ _ t _ (λ _. ((pure-IsSteady tt t g).0, o))
        (λ n. absurd (ground (arith, o, n)))
  game_loop-Yields (suc n) t g l =
      if-Yields t.engine.state.is_game_over _ _ t _ (λ o. ((pure-IsSteady tt t g).0, o))
        (λ o.
          >>=-Yields
            (dispatch_phase store persist m is_valid >> check_running store persist m is_valid)
            (λ _. game_loop store persist m is_valid n) t (Below (left t)) IsFinished
            (>>=-Yields _ _ t (Below (left t)) _
              (dispatch_phase-Yields t g (not_over t.engine g.sound o))
              (λ _ t1 l1 g1 _. quiet-Below _ t1 (left t) check_running-IsQuiet g1 l1))
            (λ _ t2 l2 g2 _. game_loop-Yields n t2 g2 (omega (arith, l2, l))))

  pub play_game-Yields :
      (t : Table)
      → IsGood t
      → left t ≤ max_dispatches
      → Yields t IsFinished (play_game store persist m is_valid t)
  unfolding play_game
  play_game-Yields t g l =
      >>=-Yields _ _ t IsFinished _
        (quiet->>=-Yields _ _ t _ check_guard-IsQuiet g
          (λ _ t1 e1 g1. game_loop-Yields max_dispatches t1 g1 (rw (same_left t t1 e1) l)))
        (λ _ t2 o g2 _. quiet_IsFinished _ t2 (flush_if_over-IsQuiet store persist) g2 o)

-- The table that a game starts on.
abbrev pub start : Board → Seat → Text → Bool → Table
start b p game_id strict = record {
  engine = new_engine b p game_id;
  recorder = new_recorder;
  guard = new_guard strict;
}

pub start-IsGood :
    (b : Board) (p : Seat) (game_id : Text) (strict : Bool)
    → validate b ≡ none
    → All IsFresh b.cards
    → IsGood (start b p game_id strict)
unfolding new_guard
start-IsGood b p game_id strict v f = record {
  sound = new_engine-IsSound b p game_id v f;
  silent = refl;
  seen = omega arith;
}

-- A game starts with twenty-one dispatches left.
pub left-start :
    (b : Board) (p : Seat) (game_id : Text) (strict : Bool) → left (start b p game_id strict) ≡ 21
unfolding dispatches_left new_engine
left-start b p game_id strict = refl

-- The game is over, or the error is one of the model, the engine, the record or the writer.
abbrev pub Ended : Outcome (Unit {0}) × Table → Type 0
Ended (done a, t) = (t.engine.state.is_game_over ≡ true) × (t.engine.state.result ≢ none)
Ended (raised x, t) = is_expected x ≡ true

pub over_result : (e : Engine) → IsSound e → e.state.is_game_over ≡ true → e.state.result ≢ none
over_result e h o = ground arith

module _ (store : Store) (persist : Bool) (m : Model) (is_valid : IsValidClue) where
  -- A game on a board that passes its validators, with nothing lying on its cards, ends within the
  -- cap of dispatches, whatever the models, the validator of clues and the writer answer: it
  -- returns with the game over and a result, or it raises an error of the model, the engine, the
  -- record or the writer, and never the cap's, a broken invariant's or an unexpected phase's.
  pub play_game-Ended :
      (b : Board) (p : Seat) (game_id : Text) (strict : Bool)
      → validate b ≡ none
      → All IsFresh b.cards
      → Ended (play_game store persist m is_valid (start b p game_id strict))
  play_game-Ended b p game_id strict v f =
      let t = start b p game_id strict in
      let (o, q) =
        play_game-Yields store persist m is_valid t (start-IsGood b p game_id strict v f)
          (omega (arith, left-start b p game_id strict)) in
      by_outcome (play_game store persist m is_valid t) o q
    where
      by_outcome :
          (x : Outcome (Unit {0}) × Table)
          → IsOnward (start b p game_id strict) x
          → Post IsFinished x
          → Ended x
      by_outcome (done a, t') o q = (q, over_result t'.engine o.good.sound q)
      by_outcome (raised x, t') o q = o.fine
