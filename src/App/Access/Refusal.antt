-- ===== src/App/Access/Refusal.antt =====
-- Requests that the checks do not grant.
use cloud_storage.Common.{
  ℕ, Bool, true, false, Bool-cases, inl, inr, [], ◌∷◌, Option, some, Bytes, codes, ◌≡◌, refl, sym,
  subst, ◌∙◌,
}
use cloud_storage.Http.Response.{StatusCode, add_header, code_text}
use cloud_storage.App.Text.{ℤ, pos, stoi}
use cloud_storage.App.Json.{object, fields, text, number}
use cloud_storage.App.Platform.{Platform, Row, Res, returns}
use cloud_storage.App.Effects.{
  Exchange, int_column, text_column, int_column_or_zero, shuts_down, send_error, reply_json,
}
use cloud_storage.App.Access.{Visit, visit, has_permission, refuse, refusal}
use cloud_storage.App.Access.Downloads.{download_row}
use cloud_storage.App.Access.Permission.{Granted, has_permission-Granted}

-- The text of a refusal: its code and its message, and nothing else.
abbrev pub refused_body : {W D : Type 0} → Platform W D → Visit → Bytes
refused_body lib v =
    lib.dump (
      object (fields ((codes "code", number (pos 403)) ∷ (codes "message", text (refusal v)) ∷ [])))

-- The answer is 403 with this text and `shutdown` behind it. Nothing else has changed: neither the
-- world nor the request, the connection's context, the object that it holds, or the map of names.
pub record IsRefused {W D : Type 0} (lib : Platform W D) (v : Visit) (s : Exchange W)
    (out : Res Bool × Exchange W) : Type 0 where
  pub returns_true : out.0 ≡ returns true
  pub forbidden : out.1.response.status_code ≡ StatusCode.forbidden_403
  pub says : out.1.response.body ≡ refused_body lib v
  pub same_rest :
      out.1 ≡ record s { response = out.1.response; on_write_complete = some shuts_down }

-- The same platform with other files.
abbrev pub with_files :
    {W D : Type 0}
    → Platform W D
    → (Bytes → W → Option Bytes)
    → (Bytes → W → Bool)
    → (Bytes → W → ℕ)
    → Platform W D
with_files lib read there size = record lib {
  read_file = read;
  exists = there;
  is_regular_file = there;
  file_size = size;
}

-- The columns of the row are texts and numbers where the code reads them as such.
pub record Reads (W : Type 0) (row : Row) (file_owner_id shared_with_id : ℤ) : Type 0 where
  pub file_id : ℤ
  pub filename : Bytes
  pub original_filename : Bytes
  pub reads_id : (s : Exchange W) → int_column row 0 s ≡ (returns file_id, s)
  pub reads_filename : (s : Exchange W) → text_column row 1 s ≡ (returns filename, s)
  pub reads_original : (s : Exchange W) → text_column row 2 s ≡ (returns original_filename, s)
  pub reads_owner : (s : Exchange W) → int_column row 3 s ≡ (returns file_owner_id, s)
  pub reads_shared : (s : Exchange W) → int_column_or_zero row 5 s ≡ (returns shared_with_id, s)

module _ {W D : Type 0} (lib : Platform W D) where
  refuse-IsRefused : (v : Visit) (s : Exchange W) → IsRefused lib v s (refuse lib v s)
  unfolding refuse send_error reply_json add_header stoi code_text
  refuse-IsRefused v s = record {
    returns_true = refl;
    forbidden = refl;
    says = refl;
    same_rest = refl;
  }

  refused_row :
      (session : Option (ℤ × Bytes)) (share_code extract_code : Bytes) (row : Row)
      (file_owner_id shared_with_id : ℤ) (s : Exchange W)
      → Reads W row file_owner_id shared_with_id
      → ¬ Granted (visit session share_code extract_code row file_owner_id shared_with_id)
      → download_row lib session share_code extract_code row s
        ≡ refuse lib (visit session share_code extract_code row file_owner_id shared_with_id) s
  unfolding download_row
  refused_row session share_code extract_code row owner shared s r ungranted =
      let v = visit session share_code extract_code row owner shared in
      let denied : has_permission v ≡ false = elim (Bool-cases (has_permission v)) [
        | inl granted ↦ absurd (ungranted ((has_permission-Granted v).0 granted))
        | inr e ↦ e
      ] in
      rw (r.reads_id s, download_row)
        (rw (r.reads_filename s)
          (rw (r.reads_original s) (rw (r.reads_owner s) (rw (r.reads_shared s) (rw denied refl)))))

module _ {W D : Type 0} (lib : Platform W D) where
  -- A download whose check grants nothing is refused: the answer is 403 with the code and the
  -- message of the refusal as its text, the connection is shut down behind it, and neither the
  -- world nor the object that the connection holds changes. No file has a part in it: with other
  -- files, of other contents and sizes, there or not, the outcome is the same. The columns of the
  -- row are as the query has them.
  pub download_row-IsRefused :
      (session : Option (ℤ × Bytes)) (share_code extract_code : Bytes) (row : Row)
      (file_owner_id shared_with_id : ℤ) (s : Exchange W) (read : Bytes → W → Option Bytes)
      (there : Bytes → W → Bool) (size : Bytes → W → ℕ)
      → Reads W row file_owner_id shared_with_id
      → ¬ Granted (visit session share_code extract_code row file_owner_id shared_with_id)
      → IsRefused lib
          (visit session share_code extract_code row file_owner_id shared_with_id)
          s
          (download_row lib session share_code extract_code row s)
        × (download_row (with_files lib read there size) session share_code extract_code row s
            ≡ download_row lib session share_code extract_code row s)
  unfolding refuse send_error reply_json
  download_row-IsRefused session share_code extract_code row owner shared s read there size r
        ungranted =
      let v = visit session share_code extract_code row owner shared in
      let here = refused_row lib session share_code extract_code row owner shared s r ungranted in
      (
        subst (IsRefused lib v s) (sym here) (refuse-IsRefused lib v s),
        refused_row (with_files lib read there size) session share_code extract_code row owner
              shared s r ungranted
            ∙ sym here,
      )
