-- ===== src/Game/Views.antt =====
-- backend/app/core/llm_service.py: the board as the clue giver sees it, by `_clue_giver_board`.
use codenames_llm_bias.Shared.{
  ◌+◌, ◌≡◌, refl, sym, ap, ◌∙◌, inl, inr, Bool, not, ◌&&◌, Bool-cases, List, [], ◌∷◌, ◌++◌, map,
  if◌then◌else◌, ◌==◌, append_none, append_one, length, length-map, filter, count_if, Text, codes,
  arith,
}
use codenames_llm_bias.Schemas.Card.{
  CardRole, agent, assassin, civilian, role_eq, Seat, other, WordCard, is_covered, is_guessable_by,
  side,
}

pub record ClueGiverBoard : Type 0 where
  pub agents : List Text
  pub assassins : List Text
  pub civilians : List Text
  pub other_visible : List Text
  pub revealed : List Text

-- f"- {card.text}"
abbrev pub line : WordCard → Text
line c = codes "- " ++ c.text

-- The body of the loop; `p` is the clue giver.
unfoldable pub place_card : Seat → ClueGiverBoard → WordCard → ClueGiverBoard
place_card p b c =
    let role = side c p in
    if is_covered c
    then (if c.revealed && role == agent
        then record b { revealed = b.revealed ++ (line c ∷ []) }
        else b)
    else if not (is_guessable_by c (other p))
    then record b { other_visible = b.other_visible ++ (line c ∷ []) }
    else if role == agent
    then record b { agents = b.agents ++ (line c ∷ []) }
    else if role == assassin
    then record b { assassins = b.assassins ++ (line c ∷ []) }
    else record b { civilians = b.civilians ++ (line c ∷ []) }

unfoldable pub place_cards : Seat → ClueGiverBoard → List WordCard → ClueGiverBoard
place_cards p b [] = b
place_cards p b (c ∷ cs) = place_cards p (place_card p b c) cs

unfoldable pub clue_giver_board : Seat → List WordCard → ClueGiverBoard
clue_giver_board p cards =
    place_cards p
      (record { agents = []; assassins = []; civilians = []; other_visible = []; revealed = [] })
      cards

-- The words that the partner can still touch and that have a role on the giver's side, those that are
-- visible but that the partner cannot touch, and the agents of the giver that are covered by an
-- agent card.
abbrev pub open_with : CardRole → Seat → WordCard → Bool
open_with r p c = is_guessable_by c (other p) && side c p == r

abbrev pub only_visible : Seat → WordCard → Bool
only_visible p c = not (is_covered c) && not (is_guessable_by c (other p))

abbrev pub is_found : Seat → WordCard → Bool
is_found p c = c.revealed && side c p == agent

-- Each list has the lines of the cards that pass its test, in the order of the board.
pub record IsView (p : Seat) (b : ClueGiverBoard) (cards : List WordCard) (v : ClueGiverBoard)
    : Type 0 where
  pub of_agents : v.agents ≡ b.agents ++ map line (filter (open_with agent p) cards)
  pub of_assassins : v.assassins ≡ b.assassins ++ map line (filter (open_with assassin p) cards)
  pub of_civilians : v.civilians ≡ b.civilians ++ map line (filter (open_with civilian p) cards)
  pub of_visible : v.other_visible ≡ b.other_visible ++ map line (filter (only_visible p) cards)
  pub of_revealed : v.revealed ≡ b.revealed ++ map line (filter (is_found p) cards)

-- How one card changes a list: it stands at its end, or not at all.
added : Bool → WordCard → List Text → List Text
added t c xs = if t then xs ++ (line c ∷ []) else xs

added_lem :
    (q : WordCard → Bool) (c : WordCard) (cs : List WordCard) (xs : List Text)
    → added (q c) c xs ++ map line (filter q cs) ≡ xs ++ map line (filter q (c ∷ cs))
unfolding added
added_lem q c cs xs = elim (Bool-cases (q c)) [
  | inl t ↦ rw t (append_one xs (line c) (map line (filter q cs)))
  | inr f ↦ rw f refl
]

place_card_lem :
    (p : Seat) (b : ClueGiverBoard) (c : WordCard)
    → ((place_card p b c).agents ≡ added (open_with agent p c) c b.agents)
      × ((place_card p b c).assassins ≡ added (open_with assassin p c) c b.assassins)
      × ((place_card p b c).civilians ≡ added (open_with civilian p c) c b.civilians)
      × ((place_card p b c).other_visible ≡ added (only_visible p c) c b.other_visible)
      × ((place_card p b c).revealed ≡ added (is_found p c) c b.revealed)
unfolding place_card added is_guessable_by
place_card_lem p b c = ground arith

place_cards-IsView :
    (p : Seat) (b : ClueGiverBoard) (cards : List WordCard)
    → IsView p b cards (place_cards p b cards)
unfolding place_cards
place_cards-IsView p b [] = record {
  of_agents = sym (append_none _);
  of_assassins = sym (append_none _);
  of_civilians = sym (append_none _);
  of_visible = sym (append_none _);
  of_revealed = sym (append_none _);
}
place_cards-IsView p b (c ∷ cs) =
    let rest = place_cards-IsView p (place_card p b c) cs in
    let (a, s, i, o, r) = place_card_lem p b c in
    record {
      of_agents =
          rest.of_agents
          ∙ ap (λ (x : List Text). x ++ map line (filter (open_with agent p) cs)) a
          ∙ added_lem (open_with agent p) c cs b.agents;
      of_assassins =
          rest.of_assassins
          ∙ ap (λ (x : List Text). x ++ map line (filter (open_with assassin p) cs)) s
          ∙ added_lem (open_with assassin p) c cs b.assassins;
      of_civilians =
          rest.of_civilians
          ∙ ap (λ (x : List Text). x ++ map line (filter (open_with civilian p) cs)) i
          ∙ added_lem (open_with civilian p) c cs b.civilians;
      of_visible =
          rest.of_visible
          ∙ ap (λ (x : List Text). x ++ map line (filter (only_visible p) cs)) o
          ∙ added_lem (only_visible p) c cs b.other_visible;
      of_revealed =
          rest.of_revealed
          ∙ ap (λ (x : List Text). x ++ map line (filter (is_found p) cs)) r
          ∙ added_lem (is_found p) c cs b.revealed;
    }

-- The clue giver's lists are the words that the partner can still touch, by their role on the giver's
-- side, the words that are visible but that the partner cannot touch, and the giver's agents that
-- are covered by an agent card, each in the order of the board.
pub clue_giver_board-IsView :
    (p : Seat) (cards : List WordCard)
    → IsView p
        (record { agents = []; assassins = []; civilians = []; other_visible = []; revealed = [] })
        cards
        (clue_giver_board p cards)
unfolding clue_giver_board
clue_giver_board-IsView p cards = place_cards-IsView p _ cards

count_lem :
    (p : Seat) (cs : List WordCard)
    → length (filter (open_with agent p) cs)
        + length (filter (open_with assassin p) cs)
        + length (filter (open_with civilian p) cs)
        + length (filter (only_visible p) cs)
      ≡ count_if (λ c. not (is_covered c)) cs
unfolding is_guessable_by
count_lem p [] = refl
count_lem p (c ∷ cs) = ground (arith, count_lem p cs)

-- Each visible word is in exactly one of the first four lists: their lengths add up to the number of
-- the words that are not covered.
pub clue_giver_board-length :
    (p : Seat) (cards : List WordCard)
    → let v = clue_giver_board p cards in
      length v.agents + length v.assassins + length v.civilians + length v.other_visible
      ≡ count_if (λ c. not (is_covered c)) cards
clue_giver_board-length p cards =
    let v = clue_giver_board-IsView p cards in
    let lines = λ (q : WordCard → Bool). length-map line (filter q cards) in
    omega (
      arith,
      ap length v.of_agents ∙ lines (open_with agent p),
      ap length v.of_assassins ∙ lines (open_with assassin p),
      ap length v.of_civilians ∙ lines (open_with civilian p),
      ap length v.of_visible ∙ lines (only_visible p),
      count_lem p cards,
    )
