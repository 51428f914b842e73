-- ===== src/Returns/Updates.antt =====
-- How an UPDATE of one return ends, for repositories/returnsRepo.ts of services/returns.
use atlas_commerce.Prelude.{ℕ, ◌≡◌, refl, Bool, true, false, none, some, ◌∙◌}
use atlas_commerce.Shared.Errors.{Code}
use atlas_commerce.Shared.Rows.{find_row, replace_row, find_row-key, find_row-replace_row}
use atlas_commerce.Shared.Tx.{ok, err}
use atlas_commerce.Returns.Repository.{
  return_id_of, load_from_row, find_by_id, find_by_id_or_throw, update_and_load,
}
use atlas_commerce.Returns.Types.{
  ReturnRow, ReturnsDb, return_conflict_error, return_not_found_error,
}

-- The row that an UPDATE wrote, in its table.
abbrev pub written : ReturnsDb → ReturnRow → ReturnsDb
written s r = record s { requests = replace_row return_id_of r s.requests }

module _ (where_ : ReturnRow → Bool) (set : ReturnRow → ReturnRow) (id : ℕ) (s : ReturnsDb) where
  pub update_and_load_hit :
      (r : ReturnRow)
      → find_row return_id_of id s.requests ≡ some r
      → where_ r ≡ true
      → update_and_load where_ set id s
        ≡ (ok (load_from_row (written s (set r)) (set r)), written s (set r))
  unfolding update_and_load
  update_and_load_hit r found may = rw found (rw may refl)

  pub update_and_load_refused :
      (r : ReturnRow)
      → find_row return_id_of id s.requests ≡ some r
      → where_ r ≡ false
      → update_and_load where_ set id s
        ≡ (err (return_conflict_error Code.return_status_conflict), s)
  unfolding update_and_load find_by_id_or_throw find_by_id
  update_and_load_refused r found refuses = rw found (rw refuses (rw found refl))

  pub update_and_load_miss :
      find_row return_id_of id s.requests ≡ none
      → update_and_load where_ set id s ≡ (err return_not_found_error, s)
  unfolding update_and_load find_by_id_or_throw find_by_id
  update_and_load_miss miss = rw miss (rw miss refl)

pub find_by_id_or_throw_hit :
    (id : ℕ) (s : ReturnsDb) (r : ReturnRow)
    → find_row return_id_of id s.requests ≡ some r
    → find_by_id_or_throw id s ≡ (ok (load_from_row s r), s)
unfolding find_by_id_or_throw find_by_id
find_by_id_or_throw_hit id s r found = rw found refl

pub find_by_id_or_throw_miss :
    (id : ℕ) (s : ReturnsDb)
    → find_row return_id_of id s.requests ≡ none
    → find_by_id_or_throw id s ≡ (err return_not_found_error, s)
unfolding find_by_id_or_throw find_by_id
find_by_id_or_throw_miss id s miss = rw miss refl

-- What is true of the row that an UPDATE writes is true of the row that is found after it.
pub written_found :
    (id : ℕ) (s : ReturnsDb) (r r' : ReturnRow)
    → r'.id ≡ r.id
    → find_row return_id_of id s.requests ≡ some r
    → find_row return_id_of id (written s r').requests ≡ some r'
written_found id s r r' kept found =
    find_row-replace_row return_id_of id s.requests r r'
      (kept ∙ find_row-key return_id_of id s.requests r found) found
