-- ===== src/Writer/Undone.antt =====
-- backend/app/db/writer.py: a game that was stored as an error and is deleted leaves no row behind.
use codenames_llm_bias.Shared.{
  ◌<◌, ◌≡◌, refl, sym, ap, subst, ◌∙◌, Bool, true, false, not, ◌&&◌, ◌||◌, Option, none, some, List,
  [], ◌∷◌, ◌++◌, append_none, if◌then◌else◌, ◌==◌, nat_eq, text_eq, Text, codes, filter,
  filter_keeps, filter_drops, filter-append, count_if, All, All-weaken, arith,
}
use codenames_llm_bias.Recorder.{GameRecorder}
use codenames_llm_bias.Writer.{GameRow, ItemRow, Database, word_map}
use codenames_llm_bias.Writer.Store.{
  GameHead, has_game, has_text, has_run, game_row, stored_game, persist_game, cascade, is_of_run,
  is_error_of, delete_error_game,
}
use codenames_llm_bias.Writer.Grows.{Over, base-Over}
use codenames_llm_bias.Writer.Flush.{OverIf, write_turns-OverIf}
use codenames_llm_bias.Writer.Keyed.{IsKeyed, cascade-Over}

-- The rows of other games are no error of the game, and the new row is.
no_error_of :
    (i run_id : Text) (gs : List GameRow)
    → has_game i gs ≡ false
    → All (λ g. not (is_error_of i run_id g) ≡ true) gs
no_error_of i run_id [] h = tt
no_error_of i run_id (g ∷ gs) h = (ground (arith, h), no_error_of i run_id gs (ground (arith, h)))

pub error_of :
    (i run_id : Text) (g : GameRow)
    → g.id ≡ i
    → g.run_id ≡ some run_id
    → g.game_status ≡ codes "error"
    → is_error_of i run_id g ≡ true
error_of i run_id g e1 e2 e3 =
    all_three (g.id == i) (is_of_run run_id g) (g.game_status == codes "error")
      ((text_eq.decides g.id i).1 e1) (by_run g.run_id e2)
      ((text_eq.decides g.game_status (codes "error")).1 e3)
  where
    all_three : (a b c : Bool) → a ≡ true → b ≡ true → c ≡ true → (a && b && c) ≡ true
    all_three a b c h k l = ground (arith, h, k, l)

    by_run :
        (o : Option Text)
        → o ≡ some run_id
        → (elim o as (λ x. Bool) [ none ↦ false | some r ↦ r == run_id ]) ≡ true
    by_run none h = ground (arith, h)
    by_run (some r) h = (text_eq.decides r run_id).1 (ground (arith, h))

found_last :
    (p : GameRow → Bool) (gs : List GameRow) (g : GameRow)
    → p g ≡ true
    → not (count_if p (gs ++ (g ∷ [])) == 0) ≡ true
found_last p [] g h = ground (arith, h)
found_last p (x ∷ gs) g h = ground (arith, found_last p gs g h)

module _ (db : Database) (h : GameHead) (r : GameRecorder) (status : Text) where
  abbrev pub with_game : Database
  with_game = record db { games = db.games ++ (game_row h r status ∷ []) }

  -- What is known of a game that was stored.
  pub record IsPersisted (r' : GameRecorder) (db' : Database) : Type 0 where
    pub on_board : has_text h.board_id db.boards ≡ true
    pub of_run : has_run h.run_id db.runs ≡ true
    pub absent : has_game h.game_id db.games ≡ false
    pub flushed : r' ≡ record r { flushed = true }
    pub over : Over with_game h.game_id db'

  pub persist_game-IsPersisted :
      All (λ x. ItemRow.id x < db.next_id) db.items
      → (r' : GameRecorder) (db' : Database) → persist_game h r status db ≡ (true, (r', db'))
      → IsPersisted r' db'
  unfolding persist_game stored_game
  persist_game-IsPersisted below r' db' q =
      by_write (has_text h.board_id db.boards && has_run h.run_id db.runs)
        (has_game h.game_id db.games) refl refl _
        (write_turns-OverIf with_game h.game_id below (word_map h.board_id db.word_cards []) r.turns
          with_game (base-Over with_game h.game_id))
        q
    where
      by_write :
          (b g : Bool)
          → (has_text h.board_id db.boards && has_run h.run_id db.runs) ≡ b
          → has_game h.game_id db.games ≡ g
          → (o : Option Database) → OverIf with_game h.game_id below o
          → (elim (if not b || g then none else o) as (λ x. Bool × (GameRecorder × Database)) [
            | none ↦ (false, (r, db))
            | some d ↦ (true, (record r { flushed = true }, d))
          ])
            ≡ (true, (r', db'))
          → IsPersisted r' db'
      by_write false g e1 e2 o k q = ground (arith, ap (λ p. p.0) q)
      by_write true true e1 e2 o k q = ground (arith, ap (λ p. p.0) q)
      by_write true false e1 e2 none k q = ground (arith, ap (λ p. p.0) q)
      by_write true false e1 e2 (some d) k q = record {
        on_board = ground (arith, e1);
        of_run = ground (arith, e1);
        absent = e2;
        flushed = sym (ap (λ p. p.1.0) q);
        over = subst (λ x. Over with_game h.game_id x) (ap (λ p. p.1.1) q) k;
      }

-- A game of a run that is stored as an error and then deleted leaves every table as it was: the games, the
-- turns, the clues with their targets, the proposals with their items, and the reveals. Only ids have
-- been spent. The rows that were there have their parents and link to rows that are there, with ids
-- below the next one.
pub delete_error_game-persist_game :
    (db : Database) (h : GameHead) (r : GameRecorder) (run_id : Text)
    → IsKeyed db
    → h.run_id ≡ some run_id
    → (r' : GameRecorder) (db' : Database) → persist_game h r (codes "error") db ≡ (true, (r', db'))
    → delete_error_game h.game_id run_id db' ≡ (true, record db { next_id = db'.next_id })
unfolding delete_error_game
delete_error_game-persist_game db h r run_id keyed run r' db' q =
    let stored =
      persist_game-IsPersisted db h r (codes "error")
        (All-weaken _ _ (λ x k. k.1) db.items keyed.items) r' db' q in
    let game = game_row h r (codes "error") in
    let is_error = is_error_of h.game_id run_id in
    let mine : is_error game ≡ true = error_of h.game_id run_id game refl run refl in
    let games : filter (λ g. not (is_error g)) db'.games ≡ db.games =
      ap (filter (λ g. not (is_error g))) stored.over.same_games
      ∙ filter-append (λ g. not (is_error g)) db.games (game ∷ [])
      ∙ ap (λ gs. gs ++ filter (λ g. not (is_error g)) (game ∷ []))
          (filter_keeps _ db.games (no_error_of h.game_id run_id db.games stored.absent))
      ∙ ap (λ gs. db.games ++ gs)
          (filter_drops (λ g. not (is_error g)) (game ∷ []) (ap not mine, tt))
      ∙ append_none db.games in
    let found : not (count_if is_error db'.games == 0) ≡ true =
      ap (λ gs. not (count_if is_error gs == 0)) stored.over.same_games
      ∙ found_last is_error db.games game mine in
    let deleted : cascade (record db' { games = filter (λ g. not (is_error g)) db'.games })
        ≡ record db { next_id = db'.next_id } =
      ap (λ gs. cascade (record db' { games = gs })) games
      ∙ cascade-Over db h.game_id keyed stored.absent db' (
          subst (λ gs. Over (record db { games = gs }) h.game_id db') (sym stored.over.same_games)
            stored.over) in
    λ i. (found i, deleted i)
