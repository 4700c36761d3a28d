-- ===== src/Game/Conductor.antt =====
-- backend/app/core/game_conductor.py: one turn of a seat.
use codenames_llm_bias.Shared.{
  ℕ, suc, Bool, true, false, not, ◌&&◌, ◌||◌, Option, none, some, List, [], ◌∷◌, ◌==◌, Text,
}
use codenames_llm_bias.Schemas.Card.{Seat, seat0, seat1}
use codenames_llm_bias.Schemas.Board.{get_card_id_by_word}
use codenames_llm_bias.Schemas.State.{GamePhase, phase_eq, ConfidenceRanking, SuddenDeathEntry}
use codenames_llm_bias.Validator.{IsValidClue}
use codenames_llm_bias.Engine
use codenames_llm_bias.Engine.{
  GuessResult, Result, receive_clue, resolve_guess, pass_turn, concede_sudden_death,
}
use codenames_llm_bias.Recorder.{
  ends_turn, result_role_of, reveal_record, RevealRecord, record_clue, record_play_proposal,
  record_measurement, record_reveal, record_sd_measurement, record_sd_play_proposal,
  record_sd_reveal,
}
use codenames_llm_bias.Game.Table.{
  value_error, no_live_clue, done, Act, pure, ◌>>=◌, ◌>>◌, gets, or_raise, engine_call,
  write_record, try_record, or_gap,
}
use codenames_llm_bias.Game.Service.{
  Model, propose_clue, propose_guess, propose_guess_sd, measure_and_attach, measure_and_attach_sd,
}

abbrev pub when : Bool → Act (Unit {0}) → Act (Unit {0})
when true m = m
when false m = pure tt

-- One word of a proposal: the state after it, and whether the loop breaks. A word that is not on the
-- board and a guess that the engine refuses are skipped. `keep` records the reveal, and `stops` is
-- the test after it.
module _ (player_id : Seat) (keep : RevealRecord → Act (Unit {0})) (flush : Act (Unit {0}))
    (stops : GuessResult → GamePhase → Bool) where
  -- The reveal is recorded and flushed.
  unfoldable pub keep_reveal : ℕ → ℕ → GuessResult → Act Bool
  keep_reveal card_id index result = do
    role ← or_raise (result_role_of result) value_error
    s ← gets (λ t. t.engine.state)
    keep (reveal_record card_id result role s.timer_tokens s.is_game_over index player_id)
    flush
    after ← gets (λ t. t.engine.state)
    pure (stops result after.current_phase)

  unfoldable pub play_card : ℕ → ℕ → Act Bool
  play_card card_id index t =
      let (r, e) = resolve_guess card_id player_id t.engine in
      elim r [
        | Engine.ok result ↦ keep_reveal card_id index result (record t { engine = e })
        | Engine.err x ↦ (done false, record t { engine = e })
      ]

  unfoldable pub play_word : Text → ℕ → Act Bool
  play_word word index t = elim (get_card_id_by_word word t.engine.state.board) [
    | none ↦ (done false, t)
    | some card_id ↦ play_card card_id index t
  ]

  -- The loop over a proposal: whether it broke.
  unfoldable pub play_words : List Text → ℕ → Act Bool
  play_words [] index = pure false
  play_words (w ∷ ws) index =
      let rest = play_words ws (suc index) in
      play_word w index >>= λ broke. elim broke [ true ↦ pure true | false ↦ rest ]

module _ (m : Model) (is_valid : IsValidClue) (flush : Act (Unit {0})) where
  unfoldable pub conduct_clue : Seat → Act (Unit {0})
  conduct_clue player_id = do
    proposal ← propose_clue m player_id
    entry ←
        engine_call (receive_clue is_valid proposal.clue proposal.count player_id proposal.targets)
    write_record (record_clue entry)

  -- `recorder.record_measurement(engine.state.current_clue.confidence_ranking)`
  abbrev pub record_live_measurement : Act (Unit {0})
  record_live_measurement = do
    s ← gets (λ t. t.engine.state)
    c ← or_raise s.current_clue no_live_clue
    try_record (record_measurement c.confidence_ranking)

  unfoldable pub conduct_guess : Seat → Act (Unit {0})
  conduct_guess player_id = do
    proposal ← propose_guess m player_id
    try_record (record_play_proposal proposal)
    or_gap (measure_and_attach m player_id)
    record_live_measurement
    broke ←
        play_words player_id (λ v. try_record (record_reveal v)) flush (λ r _. ends_turn r)
          proposal.proposals 0
    when (not broke) (engine_call (pass_turn player_id))

  abbrev pub ranking_of : Seat → SuddenDeathEntry → Option ConfidenceRanking
  ranking_of seat0 d = d.ranking0
  ranking_of seat1 d = d.ranking1

  abbrev pub record_sd_entry : Seat → Seat → Act (Unit {0})
  record_sd_entry giver player_id = do
    s ← gets (λ t. t.engine.state)
    elim s.sudden_death [
      | none ↦ pure tt
      | some d ↦ write_record (record_sd_measurement (ranking_of player_id d) giver player_id)
    ]

  unfoldable pub conduct_sd_guess : Seat → Act (Unit {0})
  conduct_sd_guess player_id = do
    entry ← gets (λ t. t.engine.state)
    when entry.sd_measurement_pending (or_gap (measure_and_attach_sd m player_id))
    record_sd_entry entry.clue_giver player_id
    proposal ← propose_guess_sd m player_id
    write_record (record_sd_play_proposal proposal entry.clue_giver player_id)
    play_words player_id (λ v. write_record (record_sd_reveal entry.clue_giver v)) flush
        (λ r f. ends_turn r || not (f == entry.current_phase)) proposal.proposals 0
    s ← gets (λ t. t.engine.state)
    when (not s.is_game_over && (s.current_phase == entry.current_phase))
        (engine_call (concede_sudden_death player_id) >> flush)
