-- ===== src/Writer/Drops.antt =====
-- backend/app/db/writer.py: the rows that the deletions take from the table of games.
use codenames_llm_bias.Shared.{
  ◌+◌, ◌≡◌, ◌≢◌, ◌↔◌, refl, sym, ap, subst, ◌∙◌, inl, inr, Bool, true, false, not, ◌&&◌, Bool-cases,
  if_cases, Option, none, some, List, [], ◌∷◌, if◌then◌else◌, ◌==◌, nat_eq, text_eq, Text, codes,
  filter, count_if, length, arith,
}
use codenames_llm_bias.Writer.{GameRow, Database}
use codenames_llm_bias.Writer.Store.{
  has_text, has_run, cascade, is_of_run, is_error_of, delete_error_game, delete_run,
}
use codenames_llm_bias.Writer.Undone.{error_of}
use codenames_llm_bias.Writer.Keyed.{IsKeyed}
use codenames_llm_bias.Writer.Table.{
  find_game, IsUnique, unless, find_game-filter, IsUnique-filter, find_game_id, find_game-All,
  count_if_found, find_game_counted, length-filter,
}

-- The game table of a database, as a store.
abbrev pub store_of : Database → Text → Option GameRow
store_of db i = find_game i db.games

-- The game is there, as an error of the run.
abbrev pub IsErrorOf : Text → Text → Database → Type 0
IsErrorOf game_id run_id db =
    (g : GameRow) × (store_of db game_id ≡ some g)
    × (g.run_id ≡ some run_id)
    × (g.game_status ≡ codes "error")

-- A store without the row of one id.
abbrev pub without : Text → (Text → Option GameRow) → Text → Option GameRow
without k store i = if k == i then none else store i

is_of_run_iff :
    (run_id : Text) (g : GameRow) → (is_of_run run_id g ≡ true) ↔ (g.run_id ≡ some run_id)
is_of_run_iff run_id g = by_run g.run_id
  where
    by_run :
        (o : Option Text)
        → ((elim o as (λ x. Bool) [ none ↦ false | some r ↦ r == run_id ]) ≡ true)
          ↔ (o ≡ some run_id)
    by_run none = ((λ q. ground (arith, q)), (λ q. ground (arith, q)))
    by_run (some r) = (
      (λ q. ap some ((text_eq.decides r run_id).0 q)),
      (λ q. (text_eq.decides r run_id).1 (ground (arith, q))),
    )

is_error_of_lem :
    (game_id run_id : Text) (g : GameRow)
    → is_error_of game_id run_id g ≡ true
    → (g.id ≡ game_id) × (g.run_id ≡ some run_id) × (g.game_status ≡ codes "error")
is_error_of_lem game_id run_id g h =
    let (a, b, c) =
      all_three (g.id == game_id) (is_of_run run_id g) (g.game_status == codes "error") h in
    (
      (text_eq.decides g.id game_id).0 a,
      (is_of_run_iff run_id g).0 b,
      (text_eq.decides g.game_status (codes "error")).0 c,
    )
  where
    all_three : (a b c : Bool) → (a && b && c) ≡ true → (a ≡ true) × (b ≡ true) × (c ≡ true)
    all_three a b c h = ground (arith, h)

-- What a store that drops the rows of a test still has.
unless-some_iff :
    (p : GameRow → Bool) (o : Option GameRow) (g : GameRow)
    → (unless p o ≡ some g) ↔ ((o ≡ some g) × (p g ≡ false))
unless-some_iff p none g = ((λ h. ground (arith, h)), (λ h. h.0))
unless-some_iff p (some x) g = elim (Bool-cases (p x)) [
  | inl q ↦ (
    (λ h. ground (arith, h, q)),
    (λ h.
        let same : x ≡ g = ground (arith, h.0) in
        let no : p x ≡ false = ap p same ∙ h.1 in ground (arith, q, no)),
  )
  | inr q ↦ (
    (λ h. let same : x ≡ g = ground (arith, h, q) in (ap some same, ap p (sym same) ∙ q)),
    (λ h. rw q h.0),
  )
]

module _ (db : Database) (u : IsUnique db.games) (game_id run_id : Text) where
  pub delete_error_game_iff :
      ((delete_error_game game_id run_id db).0 ≡ true) ↔ IsErrorOf game_id run_id db
  unfolding delete_error_game
  delete_error_game_iff = (
    (λ h.
        let (g, found, k) = find_game_counted (is_error_of game_id run_id) db.games u h in
        let (same, run, status) = is_error_of_lem game_id run_id g k in
        (g, subst (λ i. find_game i db.games ≡ some g) same found, run, status)),
    (λ (g, found, run, status).
        count_if_found (is_error_of game_id run_id) game_id db.games g found
          (error_of game_id run_id g (find_game_id game_id db.games g found) run status)),
  )

  -- A row is dropped when the answer is yes, and it is that of the game.
  pub delete_error_game-without :
      (i : Text)
      → store_of (delete_error_game game_id run_id db).1 i
        ≡ (if (delete_error_game game_id run_id db).0
              then without game_id (store_of db)
              else store_of db)
            i
  unfolding delete_error_game cascade
  delete_error_game-without i =
      find_game-filter p i db.games u
      ∙ by_answer (not (count_if p db.games == 0)) refl (find_game i db.games) refl
    where
      p : GameRow → Bool
      p = is_error_of game_id run_id

      dropped :
          (g : GameRow)
          → find_game i db.games ≡ some g
          → not (count_if p db.games == 0) ≡ true
          → (b : Bool) → p g ≡ b
          → (if b then none else some g) ≡ (if game_id == i then none else some g)
      dropped g q h true k =
          let same : game_id ≡ i =
            sym (is_error_of_lem game_id run_id g k).0 ∙ find_game_id i db.games g q in
          rw ((text_eq.decides game_id i).1 same) refl
      dropped g q h false k = elim (Bool-cases (game_id == i)) [
        | inl e ↦
            let (x, found, errs) = find_game_counted p db.games u h in
            let there : find_game i db.games ≡ some x =
              subst (λ j. find_game j db.games ≡ some x)
                ((is_error_of_lem game_id run_id x errs).0 ∙ (text_eq.decides game_id i).0 e)
                found in
            let same : x ≡ g = ground (arith, sym there ∙ q) in
            absurd (ground (arith, errs, ap p same ∙ k))
        | inr e ↦ rw e refl
      ]

      by_answer :
          (b : Bool)
          → not (count_if p db.games == 0) ≡ b
          → (o : Option GameRow) → find_game i db.games ≡ o
          → unless p o ≡ (if b then without game_id (store_of db) else store_of db) i
      by_answer true h none q = sym (if_cases (λ x. x ≡ none) (game_id == i) refl q)
      by_answer true h (some g) q =
          dropped g q h (p g) refl ∙ ap (λ o. if game_id == i then none else o) (sym q)
      by_answer false h none q = sym q
      by_answer false h (some g) q = elim (Bool-cases (p g)) [
        | inl k ↦ absurd (ground (arith, h, count_if_found p i db.games g q k))
        | inr k ↦ ap (λ (b : Bool). if b then none else some g) k ∙ sym q
      ]

  pub delete_error_game-IsUnique : IsUnique (delete_error_game game_id run_id db).1.games
  unfolding delete_error_game cascade
  delete_error_game-IsUnique = IsUnique-filter _ db.games u

module _ (db : Database) (keyed : IsKeyed db) (u : IsUnique db.games) (run_id : Text) where
  -- A game of a run that is not there is not there either.
  no_game :
      has_text run_id db.runs ≡ false
      → (i : Text) (g : GameRow) → store_of db i ≡ some g
      → g.run_id ≢ some run_id
  no_game h i g q e =
      let there = (find_game-All _ i db.games g keyed.games q).1 in
      absurd (ground (arith, h, ap (λ o. has_run o db.runs) (sym e) ∙ there))

  pub delete_run-drops :
      (i : Text) (g : GameRow)
      → (store_of (delete_run run_id db).1 i ≡ some g)
        ↔ ((store_of db i ≡ some g) × (g.run_id ≢ some run_id))
  unfolding delete_run cascade
  delete_run-drops i g = elim (Bool-cases (has_text run_id db.runs)) [
    | inr h ↦ rw h ((λ q. (q, no_game h i g q)), (λ q. q.0))
    | inl h ↦ rw h (
        let same = find_game-filter (is_of_run run_id) i db.games u in
        let both = unless-some_iff (is_of_run run_id) (store_of db i) g in
        (
          (λ q.
              let k = both.0 (sym same ∙ q) in
              (k.0, (λ e. ground (arith, k.1, (is_of_run_iff run_id g).1 e)))),
          (λ k. same ∙ both.1 (k.0, other g k.1)),
        ))
  ]
    where
      other : (x : GameRow) → x.run_id ≢ some run_id → is_of_run run_id x ≡ false
      other x n = elim (Bool-cases (is_of_run run_id x)) [
        | inl y ↦ absurd (n ((is_of_run_iff run_id x).0 y))
        | inr y ↦ y
      ]

  -- The games that are said to be deleted are those that are missing.
  pub delete_run_count :
      length db.games
      ≡ (delete_run run_id db).0.games_deleted + length (delete_run run_id db).1.games
  unfolding delete_run cascade
  delete_run_count = elim (Bool-cases (has_text run_id db.runs)) [
    | inr h ↦ rw h (omega arith)
    | inl h ↦ rw h (length-filter (is_of_run run_id) db.games)
  ]

  pub delete_run_found :
      ((delete_run run_id db).0.found ≡ has_text run_id db.runs)
      × (has_text run_id (delete_run run_id db).1.runs ≡ false)
      × IsUnique (delete_run run_id db).1.games
  unfolding delete_run cascade
  delete_run_found = elim (Bool-cases (has_text run_id db.runs)) [
    | inr h ↦ rw h (refl, h, u)
    | inl h ↦ rw h (refl, gone db.runs, IsUnique-filter _ db.games u)
  ]
    where
      gone : (rs : List Text) → has_text run_id (filter (λ r. not (r == run_id)) rs) ≡ false
      gone [] = refl
      gone (r ∷ rs) = elim (Bool-cases (r == run_id)) [
        | inl e ↦ rw e (gone rs)
        | inr e ↦ rw e (ground (arith, e, gone rs))
      ]
