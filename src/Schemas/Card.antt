-- ===== src/Schemas/Card.antt =====
-- backend/app/models/game_schemas.py: `CardRole` and `WordCard`. A seat is one of the two ints 0
-- and 1 that the source uses. The artifact metadata of a card that no code here reads (`source`,
-- `weat_set`, `covariates`) is left out.
use codenames_llm_bias.Shared.{
  ℕ, ◌≡◌, ◌↔◌, Bool, true, false, not, ◌&&◌, ◌||◌, Option, List, ◌==◌, Eq, nat_eq, Text, lower,
  length, contains, has_no_space, arith,
}

pub data CardRole : Type 0 where
  agent assassin civilian : CardRole

abbrev pub role_beq : CardRole → CardRole → Bool
role_beq agent agent = true
role_beq assassin assassin = true
role_beq civilian civilian = true
role_beq _ _ = false

pub role_beq_iff : (a b : CardRole) → (role_beq a b ≡ true) ↔ (a ≡ b)
role_beq_iff a b = ground arith

instance abbrev pub role_eq : Eq CardRole
role_eq = record { is_same = role_beq; decides = role_beq_iff }

pub data Seat : Type 0 where
  seat0 seat1 : Seat

abbrev pub seat_beq : Seat → Seat → Bool
seat_beq seat0 seat0 = true
seat_beq seat1 seat1 = true
seat_beq _ _ = false

pub seat_beq_iff : (a b : Seat) → (seat_beq a b ≡ true) ↔ (a ≡ b)
seat_beq_iff a b = ground arith

instance abbrev pub seat_eq : Eq Seat
seat_eq = record { is_same = seat_beq; decides = seat_beq_iff }

-- `1 - seat`
abbrev pub other : Seat → Seat
other seat0 = seat1
other seat1 = seat0

pub record WordCard : Type 0 where
  pub id : ℕ
  pub text : Text
  pub llm_perspective_role : CardRole
  pub human_perspective_role : CardRole
  pub revealed : Bool
  pub revealed_by : List Seat
  pub time_marker_by : List Seat
  pub category : Option Text

-- An agent card covers the word, or two time tokens do.
abbrev pub is_covered : WordCard → Bool
is_covered c = c.revealed || length c.time_marker_by == 2

unfoldable pub is_guessable_by : WordCard → Seat → Bool
is_guessable_by c p = not (is_covered c) && not (contains p c.time_marker_by)

-- `_side`: what the card is on a seat's side of the key card.
abbrev pub side : WordCard → Seat → CardRole
side c seat0 = c.llm_perspective_role
side c seat1 = c.human_perspective_role

-- The dict key of a card's word.
abbrev pub key : WordCard → Text
key c = lower c.text

-- The field constraint on `text`: at least one character, and none of them white space.
abbrev pub has_valid_text : WordCard → Bool
has_valid_text c = not (length c.text == 0) && has_no_space c.text
