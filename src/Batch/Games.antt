-- ===== src/Batch/Games.antt =====
-- backend/app/core/batch_runner.py: what playing one game, with its replays, leaves as it was.
use codenames_llm_bias.Shared.{
  ℕ, zero, suc, ◌+◌, ◌≤◌, ◌≡◌, refl, inl, inr, true, false, Bool-cases, Option, none, some, List,
  ◌∷◌, if◌then◌else◌, if_cases, nat_eq, text_eq, Text, get_item, All, length, arith,
}
use codenames_llm_bias.Schedule.{BatchCell}
use codenames_llm_bias.Batch.Wait.{Wait, wait_for_provider-Waits, Waits}
use codenames_llm_bias.Batch.Loop.{
  Setting, Batch, Played, provider_healthy, forget, is_lost, run_once, play_cell,
}

abbrev pub IsFree : List (Text × Text) → Text → Type 0
IsFree kept game_id = get_item game_id kept ≡ none

-- No game that was kept is played or deleted.
pub record IsSafe {W : Type 0} (kept : List (Text × Text)) (s : Batch W) : Type 0 where
  pub unplayed : All (IsFree kept) s.played
  pub unforgotten : All (IsFree kept) s.forgotten

module _ {W : Type 0} (b : Setting W) where
  -- How a game ends.
  pub record IsPlayed (replays : ℕ) (s : Batch W) (r : Played W) : Type 0 where
    pub reports : r.after.reports ≡ s.reports
    pub current_p : r.after.current_p ≡ s.current_p
    pub consecutive : r.after.consecutive ≡ s.consecutive
    pub aborted_pairings : r.after.aborted_pairings ≡ s.aborted_pairings
    pub outage : r.after.outage ≡ s.outage
    pub safe : IsSafe b.kept r.after
    pub plays : length r.after.played ≤ length s.played + replays + 1
    pub lost : r.gave_up ≡ true → is_lost r.result ≡ true

  abbrev pub Plays : ℕ → Batch W → Option (Played W) → Type 0
  Plays replays s none = ⊥
  Plays replays s (some r) = IsPlayed replays s r

  play_once :
      (replays : ℕ) (c : BatchCell) (s : Batch W)
      → IsFree b.kept c.game_id
      → IsSafe b.kept s
      → let (result, s') = run_once b c s in
        IsPlayed replays s (record { result = result; gave_up = false; after = s' })
  play_once replays c s free safe = record {
    reports = refl;
    current_p = refl;
    consecutive = refl;
    aborted_pairings = refl;
    outage = refl;
    safe = record { unplayed = (free, safe.unplayed); unforgotten = safe.unforgotten };
    plays = omega arith;
    lost = λ q. ground (arith, q);
  }

  -- A replay of the game, in another world.
  play_again :
      (left : ℕ) (game_id : Text) (s : Batch W) (w : W) (forgotten : List Text)
      (r : Option (Played W))
      → Plays left (record s { world = w; played = game_id ∷ s.played; forgotten = forgotten }) r
      → Plays (suc left) s r
  play_again left game_id s w forgotten none h = h
  play_again left game_id s w forgotten (some r) h = record {
    reports = h.reports;
    current_p = h.current_p;
    consecutive = h.consecutive;
    aborted_pairings = h.aborted_pairings;
    outage = h.outage;
    safe = h.safe;
    plays = omega (arith, h.plays);
    lost = h.lost;
  }

  -- A game always ends, after at most `replays` more plays.
  pub play_cell-Plays :
      (replays : ℕ) (c : BatchCell) (s : Batch W)
      → IsFree b.kept c.game_id
      → IsSafe b.kept s
      → Plays replays s (play_cell b replays c s)
  unfolding play_cell
  play_cell-Plays zero c s free safe = play_once zero c s free safe
  play_cell-Plays (suc left) c s free safe =
      elim (Bool-cases (is_lost (b.run_single_game s.world c).0)) [
        | inl l ↦ rw l (
            waited (replayed (λ s' safe'. play_cell-Plays left c s' free safe')) l _
              (wait_for_provider-Waits (provider_healthy b c) b.sleep b.provider_wait _))
        | inr l ↦ rw l (play_once (suc left) c s free safe)
      ]
    where
      replayed :
          ((s' : Batch W) → IsSafe b.kept s' → Plays left s' (play_cell b left c s'))
          → (w : W)
          → Plays (suc left) s (
              play_cell b left c (
                if b.persist
                then forget b c.game_id (record (run_once b c s).1 { world = w })
                else record (run_once b c s).1 { world = w }))
      replayed again w =
          if_cases (λ s'. Plays (suc left) s (play_cell b left c s')) b.persist
            (play_again left c.game_id s _ _ _ (
              again _ (record {
                unplayed = (free, safe.unplayed);
                unforgotten = (free, safe.unforgotten);
              })))
            (play_again left c.game_id s _ _ _ (
              again _
                (record { unplayed = (free, safe.unplayed); unforgotten = safe.unforgotten })))

      waited :
          ((w : W)
            → Plays (suc left) s (
                play_cell b left c (
                  if b.persist
                  then forget b c.game_id (record (run_once b c s).1 { world = w })
                  else record (run_once b c s).1 { world = w })))
          → is_lost (b.run_single_game s.world c).0 ≡ true
          → (r : Option (Wait W))
          → Waits (provider_healthy b c) b.sleep b.provider_wait (run_once b c s).1.world r
          → Plays (suc left) s (elim r [
            | none ↦ none
            | some r ↦
                let s'' : Batch W = record (run_once b c s).1 { world = r.world } in
                let again =
                  play_cell b left c (if b.persist then forget b c.game_id s'' else s'') in
                if r.answers
                then again
                else some (record {
                  result = (b.run_single_game s.world c).0;
                  gave_up = true;
                  after = s'';
                })
          ])
      waited replay l none h = absurd h
      waited replay l (some r) h = elim (Bool-cases r.answers) [
        | inl q ↦ rw q (replay r.world)
        | inr q ↦ rw q (record {
          reports = refl;
          current_p = refl;
          consecutive = refl;
          aborted_pairings = refl;
          outage = refl;
          safe = record { unplayed = (free, safe.unplayed); unforgotten = safe.unforgotten };
          plays = omega arith;
          lost = λ k. l;
        })
      ]
