-- ===== src/Batch/Settled.antt =====
-- backend/app/core/batch_runner.py: what the loop over a schedule keeps, and the result of a game.
use codenames_llm_bias.Shared.{
  ℕ, ◌+◌, ◌≤◌, ◌≡◌, ◌∙◌, Bool, true, false, Option, none, some, List, [], ◌∷◌, if_cases, if_decided,
  ◌==◌, nat_eq, text_eq, Text, codes, contains, All, All-weaken, leb, length, arith,
}
use codenames_llm_bias.Schedule.{BatchCell}
use codenames_llm_bias.Batch.{PairingReport, update}
use codenames_llm_bias.Batch.Loop.{Setting, Batch, Played, note_played, note_aborted, settle}
use codenames_llm_bias.Batch.Reports.{is_kept, All-update}
use codenames_llm_bias.Batch.Games.{IsFree, IsSafe, IsPlayed}
use codenames_llm_bias.Batch.Accounts.{
  IsAccounted, other-IsAccounted, note_played-IsAccounted, note_aborted-IsAccounted,
  aborted-IsAccounted, stopped-IsAccounted,
}

module _ {W : Type 0} (b : Setting W) where
  abbrev pub Accounts : Option (Option Text) → List ℕ → List BatchCell → List PairingReport → Type 0
  Accounts outage aborted rest rs = All (IsAccounted b.kept b.threshold outage aborted rest) rs

  -- The most plays of some games.
  abbrev pub most_plays : List BatchCell → ℕ
  most_plays [] = 0
  most_plays (c ∷ cs) = b.provider_replays + 1 + most_plays cs

  -- What holds when the games of `rest` are to come, and when no more are.
  pub record IsRunning (most : ℕ) (rest : List BatchCell) (s : Batch W) : Type 0 where
    pub accounts : Accounts s.outage s.aborted_pairings rest s.reports
    pub safe : IsSafe b.kept s
    pub plays : length s.played + most_plays rest ≤ most

  -- Whether the loop goes on, and the state it goes on with.
  abbrev pub Visits : ℕ → List BatchCell → Option (Bool × Batch W) → Type 0
  Visits most cs none = ⊥
  Visits most cs (some (true, s)) = IsRunning most cs s × (s.outage ≡ none)
  Visits most cs (some (false, s)) = IsRunning most [] s

  abbrev pub Ends : ℕ → Option (Batch W) → Type 0
  Ends most none = ⊥
  Ends most (some s) = IsRunning most [] s

  -- The result of a game whose pairing was not aborted.
  pub settle-Visits :
      (most : ℕ) (c : BatchCell) (cs : List BatchCell) (s : Batch W) (r : Played W)
      → IsFree b.kept c.game_id
      → contains c.pairing_ordinal s.aborted_pairings ≡ false
      → IsRunning most (c ∷ cs) s
      → s.outage ≡ none
      → IsPlayed b b.provider_replays s r
      → Visits most cs (some (settle b c r))
  unfolding settle
  settle-Visits most c cs s r free off h none_yet played =
      let p = c.pairing_ordinal in
      let free' : is_kept b.kept c ≡ false = ground (arith, free) in
      let before : Accounts r.after.outage r.after.aborted_pairings (c ∷ cs) r.after.reports =
        rw (played.outage, played.aborted_pairings, played.reports) h.accounts in
      let off' : contains p r.after.aborted_pairings ≡ false = rw (played.aborted_pairings) off in
      let after : Accounts r.after.outage r.after.aborted_pairings cs
          (update p (note_played r.result) r.after.reports) =
        All-update _ _ p (note_played r.result)
          (λ x a q.
            note_played-IsAccounted b.kept b.threshold r.after.outage r.after.aborted_pairings c cs
              x a r.result free' off' q)
          (λ x a q.
            other-IsAccounted b.kept b.threshold r.after.outage r.after.aborted_pairings c cs x a q)
          r.after.reports before in
      let few : length r.after.played + most_plays cs ≤ most =
        omega (arith, h.plays, played.plays) in
      let going : r.after.outage ≡ none = played.outage ∙ none_yet in
      if_cases (λ x. Visits most cs (some x)) (r.result.status == codes "completed")
        (
          record {
            accounts = after;
            safe = record {
              unplayed = played.safe.unplayed;
              unforgotten = played.safe.unforgotten;
            };
            plays = few;
          },
          going,
        )
        (if_cases (λ x. Visits most cs (some x)) r.gave_up
          (record {
            accounts =
                All-weaken _ _
                  (λ x a.
                    stopped-IsAccounted b.kept b.threshold r.after.outage r.after.aborted_pairings
                      cs x a p r.result.error_code)
                  (update p (note_played r.result) r.after.reports) after;
            safe = record {
              unplayed = played.safe.unplayed;
              unforgotten = played.safe.unforgotten;
            };
            plays = omega (arith, few);
          })
          (if_decided (λ x. Visits most cs (some x)) (leb b.threshold (r.after.consecutive + 1))
            (λ t. (
              record {
                accounts =
                    All-update _ _ p (note_aborted (r.after.consecutive + 1))
                      (λ x a q.
                        note_aborted-IsAccounted b.kept b.threshold r.after.outage
                          r.after.aborted_pairings cs x a p _ (ground (arith, t)) q)
                      (λ x a q.
                        aborted-IsAccounted b.kept b.threshold r.after.outage
                          r.after.aborted_pairings cs x a p q)
                      (update p (note_played r.result) r.after.reports) after;
                safe = record {
                  unplayed = played.safe.unplayed;
                  unforgotten = played.safe.unforgotten;
                };
                plays = few;
              },
              going,
            ))
            (λ t. (
              record {
                accounts = after;
                safe = record {
                  unplayed = played.safe.unplayed;
                  unforgotten = played.safe.unforgotten;
                };
                plays = few;
              },
              going,
            ))))
