-- ===== src/Writer/Revealed.antt =====
-- backend/app/db/writer.py: the rows of the reveals that are written are there.
use codenames_llm_bias.Shared.{ℕ, suc, ◌≡◌, refl, true, List, [], ◌∷◌, nat_eq, All}
use codenames_llm_bias.Recorder.{RevealRecord}
use codenames_llm_bias.Writer.{RevealRow, Database}
use codenames_llm_bias.Writer.Turns.{write_reveals}
use codenames_llm_bias.Writer.Store.{has_id}
use codenames_llm_bias.Writer.Rows.{has_id-append, has_id_last}

module _ (turn_id : ℕ) where
  -- The rows of reveals stay, and those that are written are there.
  write_reveals_keeps :
      (i position : ℕ) (reveals : List RevealRecord) (db : Database)
      → has_id (λ v. RevealRow.id v) i db.reveals ≡ true
      → has_id (λ v. RevealRow.id v) i (write_reveals turn_id position reveals db).1.reveals ≡ true
  unfolding write_reveals
  write_reveals_keeps i position [] db h = h
  write_reveals_keeps i position (r ∷ rs) db h =
      write_reveals_keeps i (suc position) rs _ (has_id-append _ i db.reveals _ h)

  abbrev pub AreRevealed : List ℕ → Database → Type 0
  AreRevealed ids db = All (λ i. has_id (λ v. RevealRow.id v) i db.reveals ≡ true) ids

  pub write_reveals_ids :
      (position : ℕ) (reveals : List RevealRecord) (db : Database)
      → AreRevealed
          (write_reveals turn_id position reveals db).0
          (write_reveals turn_id position reveals db).1
  unfolding write_reveals
  write_reveals_ids position [] db = tt
  write_reveals_ids position (r ∷ rs) db = (
    write_reveals_keeps db.next_id (suc position) rs _ (has_id_last _ db.next_id db.reveals _ refl),
    write_reveals_ids (suc position) rs _,
  )
