-- ===== src/Engine/Monad.antt =====
-- A method call on the engine: state and exceptions. What was written before a raise stays written.
use codenames_llm_bias.Shared.{Bool, true, false}
use codenames_llm_bias.Shared.Int.{ℤ, ◌-ℤ◌, pos}
use codenames_llm_bias.Schemas.Card.{Seat, seat0, seat1, CardRole}
use codenames_llm_bias.Schemas.State.{GameState, Pending}
use codenames_llm_bias.Validator.{ClueValidator}

-- `self.state` and `self.clue_validator`. The random generator serves the start alone.
pub record Engine : Type 0 where
  pub state : GameState
  pub clue_validator : ClueValidator

-- The raises of the engine, one for each message.
pub data EngineError : Type 0 where
  clue_out_of_phase not_clue_giver malformed_clue no_current_clue : EngineError
  guess_out_of_phase not_guesser not_human_guess not_llm_guess no_agents_left : EngineError
  no_such_card card_covered card_two_tokens card_marked : EngineError
  pass_out_of_phase not_passing_guesser pass_without_guess : EngineError
  concede_out_of_phase not_conceding_guesser : EngineError

-- The strings that `resolve_guess` returns. `loss_role_sd r` is f"loss_{r.value}_sd".
pub data GuessResult : Type 0 where
  agent agent_turn_end assassin civilian victory victory_sd : GuessResult
  loss_role_sd : CardRole → GuessResult

pub data Result (A : Type 0) : Type 0 where
  ok : A → Result A
  err : EngineError → Result A

abbrev pub Action : Type 0 → Type 0
Action A = Engine → Result A × Engine

module _ {A : Type 0} where
  abbrev pub pure : A → Action A
  pure a e = (ok a, e)

  abbrev pub raise : EngineError → Action A
  raise x e = (err x, e)

infixl 5 ◌>>=◌ ◌>>◌
abbrev pub ◌>>=◌ : {A B : Type 0} → Action A → (A → Action B) → Action B
◌>>=◌ m f e = let (r, e') = m e in elim r [ ok a ↦ f a e' | err x ↦ raise x e' ]

abbrev pub ◌>>◌ : {A B : Type 0} → Action A → Action B → Action B
m >> k = m >>= λ _. k

-- `if not b: raise`
abbrev pub require : Bool → EngineError → Action (Unit {0})
require true x = pure tt
require false x = raise x

abbrev pub gets : {A : Type 0} → (Engine → A) → Action A
gets f e = (ok (f e), e)

abbrev pub modify : (Engine → Engine) → Action (Unit {0})
modify f e = (ok tt, f e)

-- `self.state.pending_words[p]`, read and decremented
abbrev pub pending : Seat → GameState → ℤ
pending seat0 s = s.pending_words.pending0
pending seat1 s = s.pending_words.pending1

abbrev pub decrement : Seat → Pending → Pending
decrement seat0 p = record p { pending0 = p.pending0 -ℤ pos 1 }
decrement seat1 p = record p { pending1 = p.pending1 -ℤ pos 1 }
