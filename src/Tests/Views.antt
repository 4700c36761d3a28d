-- ===== src/Tests/Views.antt =====
-- backend/app/core/llm_service.py and loader.py: a board as its clue giver sees it, and a bank of files.
use codenames_llm_bias.Shared.{
  true, Option, none, some, List, [], ◌∷◌, if◌then◌else◌, ◌==◌, text_eq, Text, codes,
}
use codenames_llm_bias.Schemas.Card.{seat0}
use codenames_llm_bias.Schemas.Board.{Board}
use codenames_llm_bias.Game.Views.{clue_giver_board, IsView, clue_giver_board-IsView}
use codenames_llm_bias.Loader.{valid_boards, load_boards}
use codenames_llm_bias.Loader.Groups.{Loads, Decides, load_boards-Loads}
use codenames_llm_bias.Tests.Boards.{board}

clue_giver_board-IsView_example :
    IsView seat0
      (record { agents = []; assassins = []; civilians = []; other_visible = []; revealed = [] })
      board.cards
      (clue_giver_board seat0 board.cards)
clue_giver_board-IsView_example = clue_giver_board-IsView seat0 board.cards

-- One file has the board, and another one is not valid.
abbrev read_file : Text → Option Board
read_file name = if name == codes "a.json" then some board else none

abbrev files : List Text
files = codes "a.json" ∷ codes "b.json" ∷ codes "measurement_frame.json" ∷ []

load_boards-Loads_example :
    Loads read_file true (valid_boards read_file true files) (load_boards read_file true files)
    × Decides read_file true files (load_boards read_file true files)
load_boards-Loads_example = load_boards-Loads read_file true files
