-- ===== src/Tests/Boards.antt =====
-- A board for the examples, by the rules of backend/app/models/game_schemas.py.
use codenames_llm_bias.Shared.{ℕ, ◌≡◌, refl, false, none, [], ◌∷◌, codes, Text, lower, All, arith}
use codenames_llm_bias.Schemas.Card.{CardRole, agent, assassin, civilian, WordCard}
use codenames_llm_bias.Schemas.Board.{Board, validate}
use codenames_llm_bias.Invariants.Start.{IsFresh}

abbrev card : ℕ → Text → CardRole → CardRole → WordCard
card id text llm human = record {
  id = id;
  text = text;
  llm_perspective_role = llm;
  human_perspective_role = human;
  revealed = false;
  revealed_by = [];
  time_marker_by = [];
  category = none;
}

abbrev pub board : Board
board = record {
  board_id = codes "example";
  category = codes "neutral";
  cards =
      card 0 (codes "apple") agent agent
      ∷ card 1 (codes "bread") agent agent
      ∷ card 2 (codes "cloud") agent agent
      ∷ card 3 (codes "dance") agent assassin
      ∷ card 4 (codes "eagle") agent civilian
      ∷ card 5 (codes "flame") agent civilian
      ∷ card 6 (codes "grape") agent civilian
      ∷ card 7 (codes "house") agent civilian
      ∷ card 8 (codes "ivory") agent civilian
      ∷ card 9 (codes "jewel") assassin agent
      ∷ card 10 (codes "knife") civilian agent
      ∷ card 11 (codes "lemon") civilian agent
      ∷ card 12 (codes "mouse") civilian agent
      ∷ card 13 (codes "night") civilian agent
      ∷ card 14 (codes "ocean") civilian agent
      ∷ card 15 (codes "piano") assassin assassin
      ∷ card 16 (codes "queen") assassin civilian
      ∷ card 17 (codes "river") civilian assassin
      ∷ card 18 (codes "stone") civilian civilian
      ∷ card 19 (codes "tiger") civilian civilian
      ∷ card 20 (codes "uncle") civilian civilian
      ∷ card 21 (codes "voice") civilian civilian
      ∷ card 22 (codes "wagon") civilian civilian
      ∷ card 23 (codes "youth") civilian civilian
      ∷ card 24 (codes "zebra") civilian civilian
      ∷ [];
  type = none;
  specification = none;
  dilemma = none;
}

pub board-validate : validate board ≡ none
unfolding validate lower
board-validate = refl

pub board-IsFresh : All IsFresh board.cards
board-IsFresh = ground arith
