-- ===== src/Game/Dispatch.antt =====
-- backend/app/core/game_conductor.py: what conduct_clue, conduct_guess and conduct_sd_guess do to
-- the number of dispatches that are left.
use codenames_llm_bias.Shared.{
  ℕ, ◌≤◌, ◌<◌, ◌≡◌, ◌≢◌, refl, ◌∙◌, Bool, true, false, not, ◌&&◌, Option, none, some, ◌==◌, arith,
}
use codenames_llm_bias.Schemas.Card.{Seat}
use codenames_llm_bias.Schemas.State.{GamePhase, guessing, game_over, phase_eq, SuddenDeathEntry}
use codenames_llm_bias.Validator.{IsValidClue}
use codenames_llm_bias.Engine.{receive_clue, pass_turn, concede_sudden_death}
use codenames_llm_bias.Recorder.{
  record_clue, record_play_proposal, record_measurement, record_reveal, record_sd_measurement,
  record_sd_play_proposal, record_sd_reveal,
}
use codenames_llm_bias.Invariants.Calls.{
  pass_turn-IsSound, concede_sudden_death-IsSound, receive_clue-IsSound,
}
use codenames_llm_bias.Play.Ends.{pass_turn-Ends, concede_sudden_death-Ends, receive_clue-Ends}
use codenames_llm_bias.Game.Table.{
  Table, no_live_clue, Act, pure, ◌>>◌, engine_call, write_record, or_gap,
}
use codenames_llm_bias.Game.Service.{Model, propose_clue, propose_guess, measure_and_attach_sd}
use codenames_llm_bias.Game.Conductor.{
  when, conduct_clue, conduct_guess, conduct_sd_guess, record_live_measurement, record_sd_entry,
  ranking_of,
}
use codenames_llm_bias.Game.Onward.{IsGood, IsSteady, left, pure-IsSteady, or_gap-IsSteady}
use codenames_llm_bias.Game.Asks.{
  propose_clue-IsSteady, propose_guess-IsSteady, propose_guess_sd-IsSteady,
  measure_and_attach-IsSteady, measure_and_attach_sd-IsSteady,
}
use codenames_llm_bias.Game.Yields.{
  Yields, >>=-Yields, IsQuiet, pure-IsQuiet, >>=-IsQuiet, or_raise-IsQuiet, write_record-IsQuiet,
  try_record-IsQuiet, state->>=-IsQuiet, quiet->>=-Yields, state->>=-Yields, steady->>=-Yields,
}
use codenames_llm_bias.Game.Words.{Played, play_words-Yields}
use codenames_llm_bias.Game.Below.{
  Below, ending_call-Yields, quiet-Below, same_phase, same_left, Played-left, ends_turn_lem,
  phase_same, phase_other, and_false, sd_stops, still_on,
}

module _ (m : Model) (is_valid : IsValidClue) (flush : Act (Unit {0}))
    (flush_quiet : IsQuiet flush) where
  pub conduct_clue-Yields :
      (p : Seat) (t : Table)
      → IsGood t
      → Yields t (Below (left t)) (conduct_clue m is_valid flush p t)
  unfolding conduct_clue
  conduct_clue-Yields p t g =
      steady->>=-Yields (propose_clue m p) _ t _ (propose_clue-IsSteady m p) g
        (λ proposal t1 _ g1 l1.
          >>=-Yields _ _ t1 (Below (left t)) _
            (ending_call-Yields
              (receive_clue is_valid proposal.clue proposal.count p proposal.targets) t1 (left t) g1
              l1
              (receive_clue-IsSound is_valid proposal.clue proposal.count p proposal.targets
                t1.engine g1.sound)
              (receive_clue-Ends is_valid proposal.clue proposal.count p proposal.targets t1.engine
                g1.sound))
            (λ entry t2 l2 g2 _.
              quiet-Below _ t2 (left t) (write_record-IsQuiet (record_clue entry)) g2 l2))

  live_measurement-IsQuiet : IsQuiet (record_live_measurement m is_valid flush)
  live_measurement-IsQuiet = state->>=-IsQuiet _ (λ s.
      >>=-IsQuiet _ _ (or_raise-IsQuiet s.current_clue no_live_clue refl)
        (λ c. try_record-IsQuiet (record_measurement c.confidence_ranking)))

  -- The guess phase: a loop that runs out is followed by a pass.
  passed-Yields :
      (p : Seat) (broke : Bool) (t : Table) (n : ℕ)
      → IsGood t
      → left t ≤ n
      → (broke ≡ true → left t < n)
      → Yields t (Below n) (when (not broke) (engine_call (pass_turn p)) t)
  passed-Yields p true t n g b l = quiet-Below _ t n (pure-IsQuiet tt) g (l refl)
  passed-Yields p false t n g b l =
      ending_call-Yields (pass_turn p) t n g b (pass_turn-IsSound p t.engine g.sound)
        (pass_turn-Ends p t.engine g.sound)

  pub conduct_guess-Yields :
      (p : Seat) (t : Table)
      → IsGood t
      → t.engine.state.current_phase ≡ guessing
      → Yields t (Below (left t)) (conduct_guess m is_valid flush p t)
  unfolding conduct_guess
  conduct_guess-Yields p t g h =
      steady->>=-Yields (propose_guess m p) _ t _ (propose_guess-IsSteady m p) g
        (λ proposal t1 h1 g1 l1.
          quiet->>=-Yields _ _ t1 _ (try_record-IsQuiet (record_play_proposal proposal)) g1
            (λ _ t2 e2 g2.
              steady->>=-Yields _ _ t2 _ (or_gap-IsSteady _ (measure_and_attach-IsSteady m p)) g2
                (λ _ t3 h3 g3 l3.
                  quiet->>=-Yields _ _ t3 _ live_measurement-IsQuiet g3 (λ _ t4 e4 g4.
                    >>=-Yields _ _ t4 (Played t4 guessing) _
                      (play_words-Yields p _ flush _ guessing
                        (λ v. try_record-IsQuiet (record_reveal v)) flush_quiet refl
                        (λ r _ _ a. ends_turn_lem r (a refl)) proposal.proposals 0 t4 g4
                        (same_phase t3 t4 e4 ∙ h3 ∙ same_phase t1 t2 e2 ∙ h1 ∙ h))
                      (λ broke t5 q g5 l5.
                        passed-Yields p broke t5 (left t) g5
                          (omega (arith, l5, same_left t3 t4 e4, l3, same_left t1 t2 e2, l1))
                          (λ b. omega (
                            arith,
                            Played-left guessing broke t4 t5 q b,
                            same_left t3 t4 e4,
                            l3,
                            same_left t1 t2 e2,
                            l1,
                          )))))))

  sd_entry-IsQuiet : (giver p : Seat) → IsQuiet (record_sd_entry m is_valid flush giver p)
  sd_entry-IsQuiet giver p = state->>=-IsQuiet _ (λ s. recorded s.sudden_death)
    where
      recorded :
          (o : Option SuddenDeathEntry)
          → IsQuiet (elim o as (λ _. Act (Unit {0})) [
            | none ↦ pure tt
            | some d ↦
                write_record (record_sd_measurement (ranking_of m is_valid flush p d) giver p)
          ])
      recorded none = pure-IsQuiet tt
      recorded (some d) = write_record-IsQuiet _

  sd_measurement-IsSteady :
      (p : Seat) (b : Bool) → IsSteady (when b (or_gap (measure_and_attach_sd m p)))
  sd_measurement-IsSteady p true = or_gap-IsSteady _ (measure_and_attach_sd-IsSteady m p)
  sd_measurement-IsSteady p false = pure-IsSteady tt

  -- A sudden-death phase that goes on is conceded.
  conceded-Yields :
      (p : Seat) (f : GamePhase) (broke : Bool) (t t' : Table) (n : ℕ)
      → f ≢ game_over
      → IsGood t'
      → left t ≤ n
      → left t' ≤ left t
      → Played t f broke t'
      → Yields t' (Below n) (
          when
            (not t'.engine.state.is_game_over && (t'.engine.state.current_phase == f))
            (engine_call (concede_sudden_death p) >> flush)
            t')
  conceded-Yields p f true t t' n o g b l (q, m') =
      rw
        (
          phase_other t'.engine.state.current_phase f q,
          and_false (not t'.engine.state.is_game_over),
        )
        (quiet-Below _ t' n (pure-IsQuiet tt) g (omega (arith, m', b)))
  conceded-Yields p f false t t' n o g b l q = rw (still_on t'.engine f g.sound o q) (
      >>=-Yields _ _ t' (Below n) _
        (ending_call-Yields (concede_sudden_death p) t' n g (omega (arith, l, b))
          (concede_sudden_death-IsSound p t'.engine g.sound)
          (concede_sudden_death-Ends p t'.engine g.sound))
        (λ _ t'' l' g' _. quiet-Below flush t'' n flush_quiet g' l'))

  pub conduct_sd_guess-Yields :
      (p : Seat) (t : Table)
      → IsGood t
      → t.engine.state.current_phase ≢ game_over
      → Yields t (Below (left t)) (conduct_sd_guess m is_valid flush p t)
  unfolding conduct_sd_guess
  conduct_sd_guess-Yields p t g h =
      let entry = t.engine.state in
      let f = entry.current_phase in
      state->>=-Yields _ t _ (
        steady->>=-Yields _ _ t _ (sd_measurement-IsSteady p entry.sd_measurement_pending) g
          (λ _ t1 h1 g1 l1.
            quiet->>=-Yields _ _ t1 _ (sd_entry-IsQuiet entry.clue_giver p) g1 (λ _ t2 e2 g2.
              steady->>=-Yields _ _ t2 _ (propose_guess_sd-IsSteady m p) g2 (λ proposal t3 h3 g3 l3.
                quiet->>=-Yields _ _ t3 _
                  (write_record-IsQuiet (record_sd_play_proposal proposal entry.clue_giver p)) g3
                  (λ _ t4 e4 g4.
                    >>=-Yields _ _ t4 (Played t4 f) _
                      (play_words-Yields p _ flush _ f
                        (λ v. write_record-IsQuiet (record_sd_reveal entry.clue_giver v))
                        flush_quiet (rw (phase_same f) refl) (λ r f' n _. sd_stops r f f' n)
                        proposal.proposals 0 t4 g4
                        (same_phase t3 t4 e4 ∙ h3 ∙ same_phase t1 t2 e2 ∙ h1))
                      (λ broke t5 q g5 l5. state->>=-Yields _ t5 _ (
                        conceded-Yields p f broke t4 t5 (left t) h g5
                          (omega (arith, same_left t3 t4 e4, l3, same_left t1 t2 e2, l1)) l5
                          q)))))))
