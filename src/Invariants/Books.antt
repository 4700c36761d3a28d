-- ===== src/Invariants/Books.antt =====
-- The two writes to the board, a revealed agent and a placed time token, against the counters and
-- the visible words.
use codenames_llm_bias.Shared.{
  suc, ◌≤◌, ◌≡◌, ◌≢◌, refl, true, false, some, List, [], ◌∷◌, ◌++◌, nat_eq, text_eq, ◌==◌, All,
  length, contains, is_distinct, remove, strip_lem, has_no_space, arith,
}
use codenames_llm_bias.Schemas.Card.{
  agent, civilian, Seat, seat0, seat1, seat_eq, other, WordCard, side, key, is_covered,
}
use codenames_llm_bias.Schemas.Board.{find_card}
use codenames_llm_bias.Validator.{ClueValidator, remove_word}
use codenames_llm_bias.Engine.{Engine}
use codenames_llm_bias.Engine.Guesses.{cover, cover_agent, mark, place_token}
use codenames_llm_bias.Invariants.Check.{is_pending}
use codenames_llm_bias.Invariants.Sound.{IsSoundCard, MatchesBoard}
use codenames_llm_bias.Invariants.Cards

-- A card that a guess may resolve: it stands on the board, and it is not covered.
pub record IsInPlay (c : WordCard) (e : Engine) : Type 0 where
  pub found : find_card (λ x. x.id == c.id) e.state.board.cards ≡ some c
  pub uncovered : is_covered c ≡ false

pub remove_word_lem :
    (c : WordCard) (v : ClueValidator)
    → has_no_space c.text ≡ true
    → (remove_word c.text v).visible_words ≡ remove (key c) v.visible_words
unfolding remove_word
remove_word_lem c v h = rw (strip_lem c.text h)

-- A marker is added to a word that this seat has not marked.
markers_lem :
    (c : WordCard) (g : Seat) (ms : List Seat)
    → is_distinct ms ≡ true
    → length ms ≤ 2
    → length ms ≢ 2
    → contains g ms ≡ false
    → All (λ x. side c (other x) ≡ civilian) ms
    → side c (other g) ≡ civilian
    → (is_distinct (ms ++ g ∷ []) ≡ true)
      × (length (ms ++ g ∷ []) ≤ 2)
      × All (λ x. side c (other x) ≡ civilian) (ms ++ g ∷ [])
      × (length (ms ++ g ∷ []) ≡ suc (length ms))
markers_lem c g [] d l n k a s = ground arith
markers_lem c g (x ∷ []) d l n k a s = ground arith
markers_lem c g (x ∷ y ∷ []) d l n k a s = ground arith
markers_lem c g (x ∷ y ∷ z ∷ ms) d l n k a s = absurd (omega arith)

module _ (c : WordCard) (p : Seat) (e : Engine) where
  cover-IsSoundCard : IsSoundCard c → side c (other p) ≡ agent → IsSoundCard (cover p c)
  cover-IsSoundCard s a = ground arith

  mark-IsSoundCard :
      IsSoundCard c
      → is_covered c ≡ false
      → contains p c.time_marker_by ≡ false
      → side c (other p) ≡ civilian
      → IsSoundCard (mark p c)
  unfolding mark
  mark-IsSoundCard s u k b =
      ground (arith, markers_lem c p c.time_marker_by s.one_each s.two_at_most)

  pub cover_agent-MatchesBoard :
      IsInPlay c e → side c (other p) ≡ agent → MatchesBoard e → MatchesBoard (cover_agent c p e)
  unfolding cover_agent
  cover_agent-MatchesBoard i a m =
      let cards = e.state.board.cards in
      let sound = Cards.All-found c.id (cover p) c IsSoundCard cards i.found m.sound_cards in
      record {
        on_words = ground (arith, Cards.tokens_on-update_cards c.id (cover p) c cards i.found);
        pending0 =
            ground (
              arith,
              Cards.count_if-update_cards c.id (cover p) c (is_pending seat0) cards i.found,
            );
        pending1 =
            ground (
              arith,
              Cards.count_if-update_cards c.id (cover p) c (is_pending seat1) cards i.found,
            );
        sound_cards =
            Cards.All-update_cards c.id (cover p) c IsSoundCard cards i.found m.sound_cards
              (cover-IsSoundCard sound a);
        distinct_words =
            rw (Cards.keys-update_cards c.id (cover p) c cards i.found refl) m.distinct_words;
        visible_words = ground (
          arith,
          remove_word_lem c e.clue_validator sound.spaceless,
          Cards.visible-update_cards c.id (cover p) c cards i.found m.distinct_words i.uncovered
              refl,
        );
      }

module _ (c : WordCard) (e : Engine) where
  pub place_token-MatchesBoard :
      IsInPlay c e
      → contains e.state.guesser c.time_marker_by ≡ false
      → side c (other e.state.guesser) ≡ civilian
      → MatchesBoard e
      → MatchesBoard (place_token c e)
  unfolding place_token mark
  place_token-MatchesBoard i k b m =
      let cards = e.state.board.cards in
      let f = mark e.state.guesser in
      let sound = Cards.All-found c.id f c IsSoundCard cards i.found m.sound_cards in
      let (_, _, _, longer) =
        markers_lem c e.state.guesser c.time_marker_by sound.one_each sound.two_at_most
          (ground (arith, i.uncovered)) k sound.on_bystanders b in
      record {
        on_words = ground (arith, Cards.tokens_on-update_cards c.id f c cards i.found);
        pending0 =
            ground (arith, Cards.count_if-update_cards c.id f c (is_pending seat0) cards i.found);
        pending1 =
            ground (arith, Cards.count_if-update_cards c.id f c (is_pending seat1) cards i.found);
        sound_cards =
            Cards.All-update_cards c.id f c IsSoundCard cards i.found m.sound_cards
              (mark-IsSoundCard c e.state.guesser e sound i.uncovered k b);
        distinct_words = rw (Cards.keys-update_cards c.id f c cards i.found refl) m.distinct_words;
        visible_words = ground (
          arith,
          remove_word_lem c e.clue_validator sound.spaceless,
          Cards.visible-update_cards c.id f c cards i.found m.distinct_words i.uncovered,
          Cards.visible-update_cards_same c.id f c cards i.found refl i.uncovered,
        );
      }
