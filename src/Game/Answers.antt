-- ===== src/Game/Answers.antt =====
-- Which answers of a model make a proposal: the checks of backend/app/models/llm_schemas.py on the
-- format and on the proposal built from it.
use codenames_llm_bias.Shared.{
  ◌≡◌, ◌≢◌, ◌↔◌, refl, true, not, none, List, [], ◌∷◌, map, all_of, length, nat_eq, Text, strip,
  strip-strip_blank, arith,
}
use codenames_llm_bias.Game.Service.{
  ClueFormat, ProposalFormat, GuessFormat, clue_degenerate_reason, guess_degenerate_reason,
  is_blank, is_score, is_valid_clue_proposal, is_valid_guess_proposal, build_clue_proposal,
  build_guess_proposal,
}

-- An answer for a clue has no degenerate reason exactly when the proposal built from it is valid.
pub build_clue_proposal_iff :
    (a : ClueFormat) → (clue_degenerate_reason a ≡ none) ↔ (build_clue_proposal a ≢ none)
unfolding clue_degenerate_reason build_clue_proposal is_valid_clue_proposal
build_clue_proposal_iff a = ground (arith, strip-strip_blank a.clue)

abbrev words_of : List ProposalFormat → List Text
words_of ps = map (λ x. strip (ProposalFormat.word x)) ps

words_blank :
    (ps : List ProposalFormat)
    → all_of (λ w. not (is_blank w)) (words_of ps)
      ≡ all_of (λ p. not (is_blank (ProposalFormat.word p))) ps
words_blank [] = refl
words_blank (p ∷ ps) = ground (arith, strip-strip_blank p.word, words_blank ps)

words_length :
    (ps : List ProposalFormat)
    → (length (words_of ps) ≡ length ps) × (length (map ProposalFormat.confidence ps) ≡ length ps)
words_length [] = (refl, refl)
words_length (p ∷ ps) = ground (arith, words_length ps)

-- An answer for a guess whose confidences are scores has no degenerate reason exactly when the
-- proposal built from it is valid.
pub build_guess_proposal_iff :
    (a : GuessFormat)
    → all_of is_score (map ProposalFormat.confidence a.proposals) ≡ true
    → (guess_degenerate_reason a ≡ none) ↔ (build_guess_proposal a ≢ none)
unfolding guess_degenerate_reason build_guess_proposal is_valid_guess_proposal
build_guess_proposal_iff a s = ground (arith, s, words_blank a.proposals, words_length a.proposals)
