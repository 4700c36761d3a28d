-- ===== src/Play/Ends.antt =====
-- The calls that end a phase, and the number of dispatches that are left.
use codenames_llm_bias.Shared.{
  ◌≡◌, ◌≢◌, ◌≤◌, ◌<◌, ◌+◌, ◌*◌, refl, ◌∙◌, none, some, List, Text, Option, arith,
}
use codenames_llm_bias.Shared.Int.{ℤ, pos, pos_part, ◌-ℤ◌}
use codenames_llm_bias.Schemas.Card.{Seat}
use codenames_llm_bias.Schemas.State.{GameState, giving_clue, guessing, ClueEntry}
use codenames_llm_bias.Validator.{IsValidClue}
use codenames_llm_bias.Engine.{
  Engine, Result, ok, err, pass_turn, receive_clue, concede_sudden_death, switch_roles, finish_game,
}
use codenames_llm_bias.Engine.Turns.{spend_check, next_turn, start_sudden_death}
use codenames_llm_bias.Engine.Clues.{penalize, store_clue, new_clue}
use codenames_llm_bias.Invariants.Sound.{IsSound}
use codenames_llm_bias.Invariants.Calls.{store_clue-IsSound}
use codenames_llm_bias.Play.Left.{
  dispatches_left, switch_roles_left, switch_roles_turn, switch_roles_phase, penalize_left,
}

-- A call that returns has ended the phase, with fewer dispatches left; one that raises has changed
-- nothing.
abbrev pub Ends : {A : Type 0} → Engine → Result A × Engine → Type 0
Ends e (ok a, e') =
    (e'.state.current_phase ≢ e.state.current_phase)
    × (dispatches_left e'.state < dispatches_left e.state)
    × (e.state.turn_number ≤ e'.state.turn_number)
Ends e (err x, e') = e' ≡ e

pub pass_turn-Ends : (p : Seat) (e : Engine) → IsSound e → Ends e (pass_turn p e)
unfolding pass_turn dispatches_left
pass_turn-Ends p e h =
    let s = spend_check e.state in
    ground (arith, switch_roles_left s, switch_roles_turn s, switch_roles_phase s)

pub concede_sudden_death-Ends :
    (p : Seat) (e : Engine) → IsSound e → Ends e (concede_sudden_death p e)
unfolding concede_sudden_death finish_game dispatches_left
concede_sudden_death-Ends p e h = ground arith

switch_roles_reserve : (s : GameState) → (switch_roles s).timer_tokens ≡ s.timer_tokens
unfolding switch_roles next_turn start_sudden_death
switch_roles_reserve s = ground arith

-- The turn passes on only when the penalty takes the last token.
penalize_phase :
    (r : Option Text) (s : GameState)
    → s.current_phase ≡ guessing
    → ((penalize r s).current_phase ≡ giving_clue → pos_part (penalize r s).timer_tokens ≡ 0)
      × (s.turn_number ≤ (penalize r s).turn_number)
unfolding penalize
penalize_phase none s h = ground arith
penalize_phase (some r) s h =
    let t = record s {
      timer_tokens = s.timer_tokens -ℤ pos 1;
      penalty_tokens = s.penalty_tokens + 1;
    } in
    ground (arith, switch_roles_reserve t, switch_roles_turn t)

-- A sound state in the clue phase has a token left.
giving_clue_reserve :
    (e : Engine)
    → IsSound e
    → e.state.current_phase ≡ giving_clue
    → 0 < pos_part e.state.timer_tokens
giving_clue_reserve e h g = ground arith

giving_clue_left :
    (e : Engine)
    → e.state.current_phase ≡ giving_clue
    → dispatches_left e.state ≡ 2 * pos_part e.state.timer_tokens + 3
unfolding dispatches_left
giving_clue_left e g = ground arith

stored-Ends :
    (reason : Option Text) (c : ClueEntry) (e : Engine)
    → IsSound e
    → e.state.current_phase ≡ giving_clue
    → Ends e (ok c, record e { state = penalize reason (store_clue c e.state) })
stored-Ends reason c e h g =
    let s = store_clue c e.state in
    let e' = record e { state = penalize reason s } in
    let (last, later) = penalize_phase reason s refl in
    let before = giving_clue_left e g in
    let after = penalize_left reason s refl in
    (
      (λ q. ground (
        arith,
        last (q ∙ g),
        giving_clue_reserve e' (store_clue-IsSound reason c e h g) (q ∙ g),
      )),
      omega (arith, before, after),
      later,
    )

-- In a sound state, a clue that is taken ends the clue phase with fewer dispatches left and goes
-- back to no earlier turn; a clue that is refused leaves the engine as it was.
pub receive_clue-Ends :
    (is_valid : IsValidClue) (clue : Text) (count : ℤ) (p : Seat) (targets : List Text) (e : Engine)
    → IsSound e
    → Ends e (receive_clue is_valid clue count p targets e)
unfolding receive_clue
receive_clue-Ends is_valid clue count p targets e h =
    let c = new_clue clue count p targets e.state in
    let reason = is_valid e.clue_validator c in
    let judged = record c { invalid_reason = reason } in
    ground (arith, stored-Ends reason judged e h)
