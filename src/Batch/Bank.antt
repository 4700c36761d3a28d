-- ===== src/Batch/Bank.antt =====
-- backend/app/core/batch_runner.py, `_ingest_bank`: the frame and the boards of the bank are stored, and each
-- board of the schedule has its hash. The ingestions of backend/app/db are parameters.
use codenames_llm_bias.Shared.{
  ℕ, Bool, true, not, Option, none, some, List, [], ◌∷◌, if◌then◌else◌, ◌==◌, text_eq, Text,
  contains, filter, map, sort, text_leb, length, nat_eq, length-sort, ◌≡◌, refl, sym, ap, ◌∙◌,
  arith,
}
use codenames_llm_bias.Batch.Setup.{
  Setup, Does, Does-bind, Does-pure, Does-gets, Does-require, pure, stop, ◌>>=◌, require, gets,
  no_frame, stale_frame, invalid_board_file, stale_board, unstored, unhashed,
}

-- How an ingestion ends.
pub data FrameIngest : Type 0 where
  frame_stored : Bool → FrameIngest
  frame_contradicted : FrameIngest

pub data BankIngest : Type 0 where
  boards_stored : ℕ → BankIngest
  board_invalid board_contradicted : BankIngest

pub record BankStore (W : Type 0) : Type 0 where
  pub frame_exists : W → Bool
  pub ingest_frame : W → FrameIngest × W
  pub ingest_boards : W → BankIngest × W
  pub stored_hashes : List Text → W → List (Text × Option Text)

-- `sorted(set(xs))`
abbrev pub to_set : List Text → List Text
to_set [] = []
to_set (x ∷ xs) = let rest = to_set xs in if contains x rest then rest else x ∷ rest

abbrev pub sorted_set : List Text → List Text
sorted_set xs = sort text_leb (to_set xs)

abbrev pub missing_from : List Text → List Text → List Text
missing_from keys ids = filter (λ i. not (contains i keys)) ids

abbrev pub without_hash : List (Text × Option Text) → List Text
without_hash [] = []
without_hash ((i, none) ∷ d) = i ∷ without_hash d
without_hash ((i, some h) ∷ d) = without_hash d

abbrev pub hashes : List (Text × Option Text) → List (Text × Text)
hashes [] = []
hashes ((i, none) ∷ d) = hashes d
hashes ((i, some h) ∷ d) = (i, h) ∷ hashes d

module _ {W : Type 0} (b : BankStore W) where
  abbrev pub frame_step : Setup W Unit
  frame_step w =
      let (r, w') = b.ingest_frame w in
      elim r [ frame_stored x ↦ pure tt w' | frame_contradicted ↦ stop stale_frame w' ]

  abbrev pub boards_step : Setup W Unit
  boards_step w =
      let (r, w') = b.ingest_boards w in
      elim r [
        | boards_stored n ↦ pure tt w'
        | board_invalid ↦ stop invalid_board_file w'
        | board_contradicted ↦ stop stale_board w'
      ]

  -- `board_ids` has no repetition.
  unfoldable pub ingest_bank : List Text → Setup W (List (Text × Text))
  ingest_bank board_ids = do
    is_there ← gets b.frame_exists
    _ ← require is_there no_frame
    _ ← frame_step
    _ ← boards_step
    stored ← gets (b.stored_hashes board_ids)
    let missing = sort text_leb (missing_from (map (λ e. e.0) stored) board_ids)
    _ ← require (length missing == 0) (unstored missing)
    let bare = sort text_leb (without_hash stored)
    _ ← require (length bare == 0) (unhashed bare)
    pure (hashes stored)

-- Each board of the schedule is stored with its hash, and the manifest has those hashes.
pub record IsIngested {W : Type 0} (b : BankStore W) (board_ids : List Text) (w : W)
    (manifest : List (Text × Text)) : Type 0 where
  pub hashed : without_hash (b.stored_hashes board_ids w) ≡ []
  pub complete : missing_from (map (λ e. e.0) (b.stored_hashes board_ids w)) board_ids ≡ []
  pub same_hashes : manifest ≡ hashes (b.stored_hashes board_ids w)

no_more : (xs : List Text) → (length (sort text_leb xs) == 0) ≡ true → xs ≡ []
no_more [] h = refl
no_more (x ∷ xs) h = ground (arith, length-sort text_leb (x ∷ xs))

pub ingest_bank-IsIngested :
    {W : Type 0} (b : BankStore W) (board_ids : List Text) (w : W) (manifest : List (Text × Text))
    (w' : W)
    → Does (ingest_bank b board_ids) w manifest w'
    → IsIngested b board_ids w' manifest
unfolding ingest_bank
ingest_bank-IsIngested b board_ids w manifest w' h =
    let (x0, v0, h0, k0) = Does-bind _ _ w manifest w' h in
    let (x1, v1, h1, k1) = Does-bind _ _ v0 manifest w' k0 in
    let (x2, v2, h2, k2) = Does-bind _ _ v1 manifest w' k1 in
    let (x3, v3, h3, k3) = Does-bind _ _ v2 manifest w' k2 in
    let (stored, v4, h4, k4) = Does-bind _ _ v3 manifest w' k3 in
    let (x5, v5, h5, k5) = Does-bind _ _ v4 manifest w' k4 in
    let (x6, v6, h6, k6) = Does-bind _ _ v5 manifest w' k5 in
    let (q4, e4) = Does-gets (b.stored_hashes board_ids) stored v3 v4 h4 in
    let (q5, e5) = Does-require _ _ v4 v5 h5 in
    let (q6, e6) = Does-require _ _ v5 v6 h6 in
    let (q7, e7) = Does-pure (hashes stored) manifest v6 w' k6 in
    let now : b.stored_hashes board_ids w' ≡ stored =
      sym (ap (b.stored_hashes board_ids) (e4 ∙ e5 ∙ e6 ∙ e7)) ∙ q4 in
    record {
      hashed = ap (λ d. without_hash d) now ∙ no_more _ q6;
      complete = ap (λ d. missing_from (map (λ e. e.0) d) board_ids) now ∙ no_more _ q5;
      same_hashes = sym (ap (λ d. hashes d) now ∙ q7);
    }
