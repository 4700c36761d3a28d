-- ===== src/Game/Results.antt =====
-- What run_single_game returns, and what it has stored.
use codenames_llm_bias.Shared.{
  ◌≡◌, ◌≢◌, refl, Bool, true, false, not, ◌||◌, if◌then◌else◌, Option, none, some, [], Text, All,
  arith,
}
use codenames_llm_bias.Schemas.Card.{Seat}
use codenames_llm_bias.Schemas.Board.{Board, validate}
use codenames_llm_bias.Validator.{IsValidClue}
use codenames_llm_bias.Invariants.{check_invariants}
use codenames_llm_bias.Invariants.Silent.{check_invariants-nil}
use codenames_llm_bias.Invariants.Start.{IsFresh}
use codenames_llm_bias.Game.Table.{
  Table, Failure, raised_by, Outcome, done, raised, raise, Act, ◌>>=◌,
}
use codenames_llm_bias.Game.Service.{Model}
use codenames_llm_bias.Game.Runner.{
  GameStatus, completed, error, GameRunResult, Store, record_outcome, persist_game, flush_if_over,
  error_flush, error_code_of, play_game, finish_run, run_single_game,
}
use codenames_llm_bias.Game.Onward.{IsGood}
use codenames_llm_bias.Game.Yields.{Post}
use codenames_llm_bias.Game.Runs.{
  start, start-IsGood, left-start, play_game-Yields, IsFinished, over_result, Ended,
  play_game-Ended,
}

-- A completed run has the result of a game that is over.
abbrev pub Completes : GameStatus → GameRunResult → Table → Type 0
Completes completed r t = (t.engine.state.is_game_over ≡ true) × (r.result ≢ none)
Completes error r t = Unit

-- The run reports no violation and the engine's result, and the engine breaks no invariant.
abbrev pub IsHonest : GameRunResult × Table → Type 0
IsHonest (r, t) =
    (r.invariant_violations ≡ [])
    × (check_invariants t.engine ≡ [])
    × (r.result ≡ t.engine.state.result)
    × Completes r.status r t

module _ (store : Store) (persist : Bool) (m : Model) (is_valid : IsValidClue) where
  -- The flush after an error keeps the engine.
  error_flush_engine :
      (code : Option Text) (t : Table) → (error_flush store persist code t).engine ≡ t.engine
  unfolding error_flush record_outcome persist_game
  error_flush_engine code t = ground arith

  finish_run-IsHonest :
      (x : Outcome (Unit {0}) × Table)
      → IsGood x.1
      → Post IsFinished x
      → IsHonest (finish_run store persist m is_valid x)
  unfolding finish_run
  finish_run-IsHonest (done a, t) g o =
      (g.silent, check_invariants-nil t.engine g.sound, refl, (o, over_result t.engine g.sound o))
  finish_run-IsHonest (raised x, t) g o =
      let e = error_flush_engine (error_code_of x) t in
      (g.silent, rw e (check_invariants-nil t.engine g.sound), rw e refl, tt)

  -- A run on a board that passes its validators, with nothing lying on its cards, reports no
  -- violation and ends in a state that breaks no invariant, whatever the models, the validator of
  -- clues and the writer answer; the result that it reports is the engine's, and a completed run
  -- has one, of a game that is over.
  pub run_single_game-IsHonest :
      (b : Board) (p : Seat) (game_id : Text) (strict : Bool)
      → validate b ≡ none
      → All IsFresh b.cards
      → IsHonest (run_single_game store persist m is_valid b p game_id strict)
  unfolding run_single_game
  run_single_game-IsHonest b p game_id strict v f =
      let t = start b p game_id strict in
      let (o, q) =
        play_game-Yields store persist m is_valid t (start-IsGood b p game_id strict v f)
          (omega (arith, left-start b p game_id strict)) in
      finish_run-IsHonest (play_game store persist m is_valid t) o.good q

-- A game that is over has been stored.
abbrev pub IsStored : {A : Type 0} → A → Table → Type 0
IsStored _ t = t.engine.state.is_game_over ≡ true → t.recorder.flushed ≡ true

>>=-Post :
    {A B : Type 0} (m : Act A) (f : A → Act B) (t : Table) (q : B → Table → Type 0)
    → ((a : A) (t' : Table) → Post q (f a t'))
    → Post q ((m >>= f) t)
unfolding ◌>>=◌
>>=-Post {A} {B} m f t q h = by_outcome (m t)
  where
    by_outcome :
        (x : Outcome A × Table)
        → Post q (elim x.0 [ done a ↦ f a x.1 | raised y ↦ raise {A = B} y x.1 ])
    by_outcome (done a, t') = h a t'
    by_outcome (raised y, t') = tt

if-Post :
    {A : Type 0} (b : Bool) (x y : Outcome A × Table) (q : A → Table → Type 0)
    → (b ≡ true → Post q x)
    → (b ≡ false → Post q y)
    → Post q (if b then x else y)
if-Post true x y q hx hy = hx refl
if-Post false x y q hx hy = hy refl

module _ (store : Store) where
  persist_game_stores : (s : GameStatus) (t : Table) → Post IsStored (persist_game store true s t)
  unfolding persist_game
  persist_game_stores s t = by_result (store t.recorder s)
    where
      by_result :
          (o : Option Failure)
          → Post {A = Unit {0}} IsStored (elim o [
            | none ↦ (done tt, record t { recorder = record (t.recorder) { flushed = true } })
            | some x ↦ (raised (raised_by x), t)
          ])
      by_result none = λ _. refl
      by_result (some x) = tt

  -- A flush that completes has stored a game that is over.
  flush_if_over_stores : (t : Table) → Post IsStored (flush_if_over store true t)
  unfolding flush_if_over
  flush_if_over_stores t =
      if-Post (not t.engine.state.is_game_over || t.recorder.flushed) _ _ IsStored
        (λ h o. ground (arith, h, o))
        (λ _.
          >>=-Post _ _ t IsStored
            (λ _ t1. >>=-Post _ _ t1 IsStored (λ _ t2. persist_game_stores completed t2)))

  module _ (m : Model) (is_valid : IsValidClue) where
    play_game_stores : (t : Table) → Post IsStored (play_game store true m is_valid t)
    unfolding play_game
    play_game_stores t = >>=-Post _ _ t IsStored (λ _ t1. flush_if_over_stores t1)

    -- A run that is reported as completed, on a board that passes its validators with nothing lying
    -- on its cards, has stored its game, where games are stored at all: the record is latched.
    pub run_single_game-IsStored :
        (b : Board) (p : Seat) (game_id : Text) (strict : Bool)
        → validate b ≡ none
        → All IsFresh b.cards
        → (run_single_game store true m is_valid b p game_id strict).0.status ≡ completed
        → (run_single_game store true m is_valid b p game_id strict).1.recorder.flushed ≡ true
    unfolding run_single_game finish_run
    run_single_game-IsStored b p game_id strict v f =
        let t = start b p game_id strict in
        by_outcome (play_game store true m is_valid t)
          (play_game-Ended store true m is_valid b p game_id strict v f) (play_game_stores t)
      where
        by_outcome :
            (x : Outcome (Unit {0}) × Table)
            → Ended x
            → Post IsStored x
            → (finish_run store true m is_valid x).0.status ≡ completed
            → (finish_run store true m is_valid x).1.recorder.flushed ≡ true
        by_outcome (done a, t') (o, r) q c = q o
        by_outcome (raised x, t') o q c = absurd (ground (arith, c))
