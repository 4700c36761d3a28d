-- ===== src/Writer/Keyed.antt =====
-- backend/app/db/writer.py: rows with their parents, and what the cascade of a deletion leaves of them.
use codenames_llm_bias.Shared.{
  ℕ, ◌≤◌, ◌<◌, ◌≡◌, refl, ap, ◌∙◌, Bool, true, false, List, [], ◌∷◌, map, ◌++◌, append_none, nat_eq,
  text_eq, Text, filter, filter_keeps, filter_drops, filter-append, All, All-weaken, arith,
}
use codenames_llm_bias.Writer.{
  GameRow, TurnRow, ClueRow, TargetRow, ProposalRow, ItemRow, RevealRow, Database,
}
use codenames_llm_bias.Writer.Store.{
  has_game, has_text, has_run, has_id, has_reveal, unlink, cascade,
}
use codenames_llm_bias.Writer.Grows.{Grows, Over}

-- Each row has its parent, a link to a row is to a row that is there, and the ids that were given to turns, clues,
-- proposals, items and reveals are below the next one.
pub record IsKeyed (db : Database) : Type 0 where
  pub games :
      All
        (λ g.
          (has_text (GameRow.board_id g) db.boards ≡ true)
          × (has_run (GameRow.run_id g) db.runs ≡ true))
        db.games
  pub turns :
      All (λ t. (has_game (TurnRow.game_id t) db.games ≡ true) × (t.id < db.next_id)) db.turns
  pub clues :
      All
        (λ c.
          (has_id (λ t. TurnRow.id t) (ClueRow.turn_id c) db.turns ≡ true) × (c.id < db.next_id))
        db.clues
  pub clue_targets :
      All (λ t. has_id (λ c. ClueRow.id c) (TargetRow.clue_id t) db.clues ≡ true) db.clue_targets
  pub proposals :
      All
        (λ p.
          (has_id (λ t. TurnRow.id t) (ProposalRow.turn_id p) db.turns ≡ true)
          × (p.id < db.next_id))
        db.proposals
  pub items :
      All
        (λ x.
          (has_id (λ p. ProposalRow.id p) (ItemRow.guess_proposal_id x) db.proposals ≡ true)
          × (x.id < db.next_id))
        db.items
  pub links : All (λ x. has_reveal (ItemRow.reveal_event_id x) db.reveals ≡ true) db.items
  pub reveals :
      All
        (λ v.
          (has_id (λ t. TurnRow.id t) (RevealRow.turn_id v) db.turns ≡ true) × (v.id < db.next_id))
        db.reveals

unlink_keeps :
    (reveals : List RevealRow) (xs : List ItemRow)
    → All (λ x. has_reveal (ItemRow.reveal_event_id x) reveals ≡ true) xs
    → map (unlink reveals) xs ≡ xs
unlink_keeps reveals [] h = refl
unlink_keeps reveals (x ∷ xs) h = rw h.0 (ap (◌∷◌ x) (unlink_keeps reveals xs h.1))

-- The old rows are kept and the new ones are not.
filter-Grows :
    {A : Type 0} (P : A → Type 0) (p : A → Bool) (xs ys : List A)
    → Grows P xs ys
    → All (λ x. p x ≡ true) xs
    → ((x : A) → P x → p x ≡ false)
    → filter p ys ≡ xs
filter-Grows P p xs ys g old new =
    ap (filter p) g.whole
    ∙ filter-append p xs g.new
    ∙ ap (λ zs. zs ++ filter p g.new) (filter_keeps p xs old)
    ∙ ap (λ zs. xs ++ zs) (filter_drops p g.new (All-weaken P (λ x. p x ≡ false) new g.new g.all))
    ∙ append_none xs

has_id_below :
    {A : Type 0} (id : A → ℕ) (n i : ℕ) (xs : List A)
    → n ≤ i
    → All (λ x. id x < n) xs
    → has_id id i xs ≡ false
has_id_below id n i [] h a = refl
has_id_below id n i (x ∷ xs) h a = ground (arith, h, a.0, has_id_below id n i xs h a.1)

module _ (db : Database) (game_id : Text) (keyed : IsKeyed db)
    (absent : has_game game_id db.games ≡ false) where
  under_turns :
      {A : Type 0} (ts : List TurnRow)
      → ts ≡ db.turns
      → (id_of : A → ℕ) (old new : List A) → Grows (λ x. db.next_id ≤ id_of x) old new
      → All (λ x. has_id (λ t. TurnRow.id t) (id_of x) db.turns ≡ true) old
      → filter (λ x. has_id (λ t. TurnRow.id t) (id_of x) ts) new ≡ old
  under_turns ts same id_of old new g a =
      ap (λ us. filter (λ x. has_id (λ t. TurnRow.id t) (id_of x) us) new) same
      ∙ filter-Grows _ (λ x. has_id (λ t. TurnRow.id t) (id_of x) db.turns) old new g a
          (λ x n.
            has_id_below (λ t. TurnRow.id t) db.next_id (id_of x) db.turns n
              (All-weaken _ _ (λ t k. k.1) db.turns keyed.turns))

  -- The rows that the turns of a game added go with it.
  pub cascade-Over :
      (db' : Database)
      → Over (record db { games = db'.games }) game_id db'
      → cascade (record db' { games = db.games }) ≡ record db { next_id = db'.next_id }
  unfolding cascade
  cascade-Over db' h =
      let turns =
        filter-Grows _ (λ t. has_game (TurnRow.game_id t) db.games) db.turns db'.turns h.turns
          (All-weaken _ _ (λ t k. k.0) db.turns keyed.turns)
          (λ t k. ap (λ i. has_game i db.games) k.0 ∙ absent) in
      let clues =
        under_turns (filter (λ t. has_game (TurnRow.game_id t) db.games) db'.turns) turns
          (λ c. ClueRow.turn_id c) db.clues db'.clues h.clues
          (All-weaken _ _ (λ c k. k.0) db.clues keyed.clues) in
      let proposals =
        under_turns (filter (λ t. has_game (TurnRow.game_id t) db.games) db'.turns) turns
          (λ p. ProposalRow.turn_id p) db.proposals db'.proposals h.proposals
          (All-weaken _ _ (λ p k. k.0) db.proposals keyed.proposals) in
      let reveals =
        under_turns (filter (λ t. has_game (TurnRow.game_id t) db.games) db'.turns) turns
          (λ v. RevealRow.turn_id v) db.reveals db'.reveals h.reveals
          (All-weaken _ _ (λ v k. k.0) db.reveals keyed.reveals) in
      let clue_targets =
        ap
          (λ cs. filter (λ t. has_id (λ c. ClueRow.id c) (TargetRow.clue_id t) cs) db'.clue_targets)
          clues
        ∙ filter-Grows _ (λ t. has_id (λ c. ClueRow.id c) (TargetRow.clue_id t) db.clues)
            db.clue_targets db'.clue_targets h.clue_targets keyed.clue_targets
            (λ t n.
              has_id_below (λ c. ClueRow.id c) db.next_id t.clue_id db.clues n
                (All-weaken _ _ (λ c k. k.1) db.clues keyed.clues)) in
      let kept_items =
        ap
          (λ ps.
            filter (λ x. has_id (λ p. ProposalRow.id p) (ItemRow.guess_proposal_id x) ps) db'.items)
          proposals
        ∙ filter-Grows _
            (λ x. has_id (λ p. ProposalRow.id p) (ItemRow.guess_proposal_id x) db.proposals)
            db.items db'.items h.items (All-weaken _ _ (λ x k. k.0) db.items keyed.items)
            (λ x n.
              has_id_below (λ p. ProposalRow.id p) db.next_id x.guess_proposal_id db.proposals n
                (All-weaken _ _ (λ p k. k.1) db.proposals keyed.proposals)) in
      let items =
        ap (map (unlink _)) kept_items
        ∙ ap (λ vs. map (unlink vs) db.items) reveals
        ∙ unlink_keeps db.reveals db.items keyed.links in
      λ i. record {
        next_id = db'.next_id;
        boards = h.same_boards i;
        word_cards = h.same_cards i;
        runs = h.same_runs i;
        games = db.games;
        turns = turns i;
        clues = clues i;
        clue_targets = clue_targets i;
        proposals = proposals i;
        items = items i;
        reveals = reveals i;
      }
