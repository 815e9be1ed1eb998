-- ===== src/App/Shares/Columns.antt =====
-- The columns of a share's row, as the schema has them, and those that `handleShareAccess` reads.
use cloud_storage.Common.{Bool, [], ◌∷◌, Option, none, some, Bytes, codes, ◌≡◌, refl, ap}
use cloud_storage.App.Text.{ℤ, stoi, int_eq}
use cloud_storage.App.Access.{session_user}
use cloud_storage.App.Platform.{Platform, Row, throws}
use cloud_storage.App.Effects.{Exchange, M, pure, raise, text_column}
use cloud_storage.App.Shares.Visits.{share_access_row, owner_test}

-- `fs.*` in the order of `CREATE TABLE file_shares`, and the six columns that the query names.
pub record ShareRow : Type 0 where
  pub id : Bytes
  pub file_id : Bytes
  pub owner_id : Bytes
  pub shared_with_id : Option Bytes
  pub share_type : Bytes
  pub share_code : Bytes
  pub expire_time : Option Bytes
  pub created_at : Option Bytes
  pub extract_code : Option Bytes
  pub filename : Bytes
  pub original_filename : Bytes
  pub file_size : Bytes
  pub file_type : Option Bytes
  pub owner_username : Bytes
  pub user_id : Bytes

abbrev pub columns : ShareRow → Row
columns r =
    some r.id
    ∷ some r.file_id
    ∷ some r.owner_id
    ∷ r.shared_with_id
    ∷ some r.share_type
    ∷ some r.share_code
    ∷ r.expire_time
    ∷ r.created_at
    ∷ r.extract_code
    ∷ some r.filename
    ∷ some r.original_filename
    ∷ some r.file_size
    ∷ r.file_type
    ∷ some r.owner_username
    ∷ some r.user_id
    ∷ []

module _ {W D : Type 0} (lib : Platform W D) where
  owner_test-throws :
      (r : ShareRow) (id : ℤ) (s : Exchange W)
      → stoi r.owner_username ≡ none
      → owner_test lib (columns r) id s ≡ (throws (codes "stoi"), s)
  unfolding owner_test
  owner_test-throws r id s h =
      ap
        (λ (o : Option ℤ).
          (elim o as (λ _. M W Bool) [ some n ↦ pure (int_eq n id) | none ↦ raise (codes "stoi") ])
            s)
        h

  -- On every row in the order of the schema, whatever the share and whoever asks, the answer to a
  -- request for JSON throws where the owner's name does not begin with a number: the code takes the
  -- name for the owner's id. Nothing has been written by then.
  pub share_access_row-throws :
      (session : Option (ℤ × Bytes)) (share_code extract_code : Bytes) (r : ShareRow)
      (s : Exchange W)
      → stoi r.owner_username ≡ none
      → share_access_row lib session share_code extract_code (columns r) s
        ≡ (throws (codes "stoi"), s)
  unfolding share_access_row text_column
  share_access_row-throws session share_code extract_code r s h =
      rw (owner_test-throws r (session_user session) s h, share_access_row) refl
