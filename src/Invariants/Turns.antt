-- ===== src/Invariants/Turns.antt =====
-- backend/app/core/engine.py: the end of a turn and the invariant of the engine.
use codenames_llm_bias.Shared.{◌≡◌, ◌≢◌, ◌⊎◌, inl, false, none, arith}
use codenames_llm_bias.Shared.Int.{pos}
use codenames_llm_bias.Schemas.Card.{other}
use codenames_llm_bias.Schemas.State.{GameState}
use codenames_llm_bias.Engine.{Engine, pending, switch_roles}
use codenames_llm_bias.Engine.Turns.{next_turn, start_sudden_death}
use codenames_llm_bias.Invariants.Sound.{HasTokens, MatchesBoard, IsRunning, IsSound}

-- What `_switch_roles` needs: a game that runs, two roles, and a word that is pending.
pub record CanSwitch (s : GameState) : Type 0 where
  pub running : s.is_game_over ≡ false
  pub unfinished : s.result ≡ none
  pub roles : s.guesser ≡ other s.clue_giver
  pub some_pending : (pending s.guesser s ≢ pos 0) ⊎ (pending s.clue_giver s ≢ pos 0)

pub switch_roles-HasTokens : (s : GameState) → HasTokens s → HasTokens (switch_roles s)
unfolding switch_roles next_turn start_sudden_death
switch_roles-HasTokens s t = ground arith

pub switch_roles-MatchesBoard :
    (e : Engine) → MatchesBoard e → MatchesBoard (record e { state = switch_roles e.state })
unfolding switch_roles next_turn start_sudden_death
switch_roles-MatchesBoard e m = ground arith

pub switch_roles-IsRunning :
    (e : Engine)
    → CanSwitch e.state
    → HasTokens e.state
    → MatchesBoard e
    → IsRunning (switch_roles e.state)
unfolding switch_roles next_turn start_sudden_death
switch_roles-IsRunning e c t m = ground arith

pub switch_roles-IsSound :
    (e : Engine)
    → CanSwitch e.state
    → HasTokens e.state
    → MatchesBoard e
    → IsSound (record e { state = switch_roles e.state })
switch_roles-IsSound e c t m = record {
  tokens = switch_roles-HasTokens e.state t;
  on_board = switch_roles-MatchesBoard e m;
  progress = inl (switch_roles-IsRunning e c t m);
}
