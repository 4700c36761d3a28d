-- ===== src/Game/Words.antt =====
-- backend/app/core/game_conductor.py: the loop over a proposal and the phase of the game.
use codenames_llm_bias.Shared.{
  ℕ, suc, ◌≤◌, ◌<◌, ◌≡◌, ◌≢◌, ◌⊎◌, inl, inr, refl, sym, ap, ◌∙◌, Bool, true, false, Option, none,
  some, List, [], ◌∷◌, Text, arith,
}
use codenames_llm_bias.Schemas.Card.{Seat}
use codenames_llm_bias.Schemas.Board.{get_card_id_by_word}
use codenames_llm_bias.Schemas.State.{GameState, GamePhase, guessing}
use codenames_llm_bias.Engine
use codenames_llm_bias.Engine.{Engine, EngineError, GuessResult, Result, resolve_guess}
use codenames_llm_bias.Recorder.{RevealRecord, result_role_of}
use codenames_llm_bias.Invariants.Sound.{IsSound}
use codenames_llm_bias.Invariants.Guesses.{resolve_guess-IsSound}
use codenames_llm_bias.Play.Left.{dispatches_left, Moves, resolve_guess-Moves}
use codenames_llm_bias.Game.Table.{Table, value_error, Outcome, done, raised, Act, pure}
use codenames_llm_bias.Game.Conductor.{keep_reveal, play_card, play_word, play_words}
use codenames_llm_bias.Game.Onward.{IsGood, left, pure-IsSteady}
use codenames_llm_bias.Game.Yields.{
  Post, Yields, >>=-Yields, IsQuiet, or_raise-IsQuiet, quiet->>=-Yields, state->>=-Yields,
}

-- After a word: the loop breaks exactly when the phase is over, with fewer dispatches left.
abbrev pub Played : Table → GamePhase → Bool → Table → Type 0
Played t f true t' = (t'.engine.state.current_phase ≢ f) × (left t' < left t)
Played t f false t' = t'.engine.state.current_phase ≡ f

module _ (player_id : Seat) (keep : RevealRecord → Act (Unit {0})) (flush : Act (Unit {0}))
    (stops : GuessResult → GamePhase → Bool) (f : GamePhase)
    (keep_quiet : (v : RevealRecord) → IsQuiet (keep v)) (flush_quiet : IsQuiet flush)
    (goes_on : stops GuessResult.agent f ≡ false)
    (breaks : (r : GuessResult) (f' : GamePhase)
      → f' ≢ f
      → (f ≡ guessing → r ≢ GuessResult.agent)
      → stops r f' ≡ true) where
  -- What is kept of a reveal leaves the engine, and the test reads its phase.
  keep_reveal-Yields :
      (card_id index : ℕ) (result : GuessResult) (t : Table)
      → IsGood t
      → Yields t
          (λ b t'. (t'.engine ≡ t.engine) × (b ≡ stops result t.engine.state.current_phase))
          (keep_reveal player_id keep flush stops card_id index result t)
  unfolding keep_reveal
  keep_reveal-Yields card_id index result t g =
      quiet->>=-Yields _ _ t _ (or_raise-IsQuiet (result_role_of result) value_error refl) g
        (λ role t1 e1 g1. state->>=-Yields _ t1 _ (
          quiet->>=-Yields _ _ t1 _ (keep_quiet _) g1 (λ _ t2 e2 g2.
            quiet->>=-Yields _ _ t2 _ flush_quiet g2 (λ _ t3 e3 g3. state->>=-Yields _ t3 _ (
              (pure-IsSteady _ t3 g3).0,
              (
                e3 ∙ e2 ∙ e1,
                ap (λ (e : Engine). stops result e.state.current_phase) (e3 ∙ e2 ∙ e1),
              ),
            )))))

  -- The test holds exactly when the guess has ended the phase.
  stops_lem :
      (result : GuessResult) (s : GameState) (e : Engine)
      → s.current_phase ≡ f
      → Moves s (Engine.ok result, e)
      → ((stops result e.state.current_phase ≡ true)
          × (e.state.current_phase ≢ f)
          × (dispatches_left e.state < dispatches_left s))
        ⊎ ((stops result e.state.current_phase ≡ false)
            × (e.state.current_phase ≡ f)
            × (dispatches_left e.state ≡ dispatches_left s))
  stops_lem result s e h (inl (q, a, l, n)) = inr (rw (a, q ∙ h) goes_on, q ∙ h, l)
  stops_lem result s e h (inr (q, l, a, n)) =
      let moved : e.state.current_phase ≢ f = λ x. q (x ∙ sym h) in
      inl (
        breaks result e.state.current_phase moved
            (λ x. elim a [ inl k ↦ absurd (k (h ∙ x)) | inr k ↦ k ]),
        moved,
        l,
      )

  -- Keeping the reveal of a guess that moved the game on.
  moved-Yields :
      (card_id index : ℕ) (result : GuessResult) (e : Engine) (t : Table)
      → IsGood t
      → t.engine.state.current_phase ≡ f
      → IsSound e
      → Moves t.engine.state (Engine.ok result, e)
      → Yields t
          (Played t f)
          (keep_reveal player_id keep flush stops card_id index result (record t { engine = e }))
  moved-Yields card_id index result e t g h s m =
      let t' : Table = record t { engine = e } in
      let g' : IsGood t' = record { sound = s; silent = g.silent; seen = ground (arith, g.seen) } in
      by_outcome _ (keep_reveal-Yields card_id index result t' g')
    where
      by_outcome :
          (x : Outcome Bool × Table)
          → Yields
              (record t { engine = e })
              (λ b t'. (t'.engine ≡ e) × (b ≡ stops result e.state.current_phase))
              x
          → Yields t (Played t f) x
      by_outcome (done true, t') (o, (q, b)) = elim (stops_lem result t.engine.state e h m) [
        | inl (v, n, l) ↦ (
          record { good = o.good; fewer = omega (arith, o.fewer, l); fine = tt },
          (rw q n, omega (arith, o.fewer, l)),
        )
        | inr (v, n, l) ↦ absurd (ground (arith, b ∙ v))
      ]
      by_outcome (done false, t') (o, (q, b)) = elim (stops_lem result t.engine.state e h m) [
        | inl (v, n, l) ↦ absurd (ground (arith, b ∙ v))
        | inr (v, n, l) ↦
            (record { good = o.good; fewer = omega (arith, o.fewer, l); fine = tt }, rw q n)
      ]
      by_outcome (raised x, t') (o, p) =
          (record { good = o.good; fewer = ground (arith, o.fewer); fine = o.fine }, tt)

  -- A word on the board: the guess is refused, or it is kept.
  play_card-Yields :
      (card_id index : ℕ) (t : Table)
      → IsGood t
      → t.engine.state.current_phase ≡ f
      → Yields t (Played t f) (play_card player_id keep flush stops card_id index t)
  unfolding play_card
  play_card-Yields card_id index t g h =
      by_result (resolve_guess card_id player_id t.engine)
        (resolve_guess-IsSound card_id player_id t.engine g.sound)
        (resolve_guess-Moves card_id player_id t.engine g.sound)
    where
      by_result :
          (x : Result GuessResult × Engine)
          → IsSound x.1
          → ((y : EngineError) × (x ≡ (Engine.err y, t.engine))) ⊎ Moves t.engine.state x
          → Yields t (Played t f) (elim x.0 [
            | Engine.ok result ↦
                keep_reveal player_id keep flush stops card_id index result
                  (record t { engine = x.1 })
            | Engine.err y ↦ (done false, record t { engine = x.1 })
          ])
      by_result (Engine.ok result, e) s (inl (y, q)) = absurd (ground (arith, q))
      by_result (Engine.ok result, e) s (inr m) = moved-Yields card_id index result e t g h s m
      by_result (Engine.err y, e) s (inl (y', q)) =
          let same : e ≡ t.engine = ap (λ x. x.1) q in
          (
            record {
              good = record { sound = s; silent = g.silent; seen = rw same g.seen };
              fewer = rw same (omega arith);
              fine = tt;
            },
            rw same h,
          )
      by_result (Engine.err y, e) s (inr m) = absurd m

  play_word-Yields :
      (word : Text) (index : ℕ) (t : Table)
      → IsGood t
      → t.engine.state.current_phase ≡ f
      → Yields t (Played t f) (play_word player_id keep flush stops word index t)
  unfolding play_word
  play_word-Yields word index t g h = by_id (get_card_id_by_word word t.engine.state.board)
    where
      by_id :
          (o : Option ℕ)
          → Yields {A = Bool} t (Played t f) (elim o [
            | none ↦ (done false, t)
            | some card_id ↦ play_card player_id keep flush stops card_id index t
          ])
      by_id none = ((pure-IsSteady false t g).0, h)
      by_id (some card_id) = play_card-Yields card_id index t g h

  after_word-Yields :
      (rest : Act Bool) (t : Table)
      → ((t' : Table)
          → IsGood t'
          → t'.engine.state.current_phase ≡ f
          → Yields t' (Played t' f) (rest t'))
      → (broke : Bool) (t' : Table) → Played t f broke t'
      → IsGood t'
      → left t' ≤ left t
      → Yields t'
          (Played t f)
          ((elim broke as (λ _. Act Bool) [ true ↦ pure true | false ↦ rest ]) t')
  after_word-Yields rest t y true t' p g l = ((pure-IsSteady true t' g).0, p)
  after_word-Yields rest t y false t' p g l = let (o, q) = y t' g p in (o, later (rest t') q)
    where
      later : (x : Outcome Bool × Table) → Post (Played t' f) x → Post (Played t f) x
      later (done true, t'') (n, m) = (n, omega (arith, m, l))
      later (done false, t'') q = q
      later (raised y, t'') q = tt

  -- A proposal that breaks has ended the phase; one that runs out has not.
  pub play_words-Yields :
      (words : List Text) (index : ℕ) (t : Table)
      → IsGood t
      → t.engine.state.current_phase ≡ f
      → Yields t (Played t f) (play_words player_id keep flush stops words index t)
  unfolding play_words
  play_words-Yields [] index t g h = ((pure-IsSteady false t g).0, h)
  play_words-Yields (w ∷ ws) index t g h =
      >>=-Yields _ _ t (Played t f) _ (play_word-Yields w index t g h) (
        after_word-Yields (play_words player_id keep flush stops ws (suc index)) t
          (play_words-Yields ws (suc index)))
