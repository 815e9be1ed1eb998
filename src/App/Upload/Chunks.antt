-- ===== src/App/Upload/Chunks.antt =====
-- The bodies of one upload, one after the other.
use cloud_storage.Common.{
  ℕ, zero, suc, ◌+◌, ◌%◌, ◌^◌, true, false, List, [], ◌∷◌, ◌++◌, none, some, Bytes, codes, length,
  take, ◌≡◌, refl, sym, ap, subst, ◌∙◌, arith, append_assoc, append-nil, length-append, ◌==◌, ltb,
}
use cloud_storage.App.Text.{find_text, after_prefix}
use cloud_storage.App.Platform.{Platform, Res, returns}
use cloud_storage.App.Effects.{
  Exchange, M, ◌>>=◌, bind, pure, FileUploadContext, expect_boundary, complete, upload,
}
use cloud_storage.App.Upload.{write_data, next_piece, at_boundary, at_state, set_state}
use cloud_storage.App.Storage.{KeepsFile}
use cloud_storage.App.Upload.Search.{find_text-longer}

-- The counter is the size of the file, as far as 64 bits count it.
abbrev pub Counts : FileUploadContext → Bytes → Type 0
Counts c held = c.total_bytes ≡ length held % 2 ^ 64

-- The context of a file that holds these bytes.
abbrev pub counted : FileUploadContext → Bytes → FileUploadContext
counted c held = record c { total_bytes = length held % 2 ^ 64 }

abbrev added : FileUploadContext → Bytes → FileUploadContext
added c bytes = record c { total_bytes = (c.total_bytes + length bytes) % 2 ^ 64 }

added_lem :
    (c : FileUploadContext) (held bytes : Bytes)
    → Counts c held
    → added c bytes ≡ counted c (held ++ bytes)
added_lem c held bytes k =
    let e : (c.total_bytes + length bytes) % 2 ^ 64 ≡ length (held ++ bytes) % 2 ^ 64 =
      omega (arith, k, length-append held bytes) in
    ap (λ (n : ℕ). record c { total_bytes = n }) e

counted-nil : (c : FileUploadContext) (held : Bytes) → Counts c held → c ≡ counted c (held ++ [])
counted-nil c held k = rw (append-nil held) (ap (λ (n : ℕ). record c { total_bytes = n }) k)

-- An empty body holds no end boundary.
not_empty :
    (boundary body : Bytes) (end : ℕ)
    → find_text (boundary ++ codes "--") body ≡ some end
    → (length body == 0) ≡ false
unfolding find_text after_prefix
not_empty [] [] end found = absurd cc
not_empty (x ∷ boundary) [] end found = absurd cc
not_empty boundary (b ∷ body) end found = ground arith

-- The file at a path holds these bytes in `s'`, which differs from `s` in the world and in the
-- object of the connection alone.
pub record After {W D : Type 0} (lib : Platform W D) (path held : Bytes) (s s' : Exchange W)
    : Type 0 where
  pub holds : lib.read_file path s'.world ≡ some held
  pub same_rest : s' ≡ record s { world = s'.world; custom = s'.custom }

After-trans :
    {W D : Type 0} {lib : Platform W D} {path held more : Bytes} {s s1 s2 : Exchange W}
    → After lib path held s s1
    → After lib path more s1 s2
    → After lib path more s s2
After-trans {W = W} {s2 = s2} p q = record {
  holds = q.holds;
  same_rest =
      q.same_rest
      ∙ ap {A = Exchange W} (λ x. record x { world = s2.world; custom = s2.custom }) p.same_rest;
}

module _ {W D : Type 0} (lib : Platform W D) where
  abbrev stored_state : Bytes → Bytes → FileUploadContext → Exchange W → Exchange W
  stored_state path bytes c s = record s {
    world = (lib.write_file path bytes s.world).1;
    custom = some (upload c);
  }

  write_data_lem :
      (c : FileUploadContext) (held bytes : Bytes) (s : Exchange W)
      → KeepsFile lib c.filename
      → lib.read_file c.filename s.world ≡ some held
      → Counts c held
      → (write_data lib c bytes s ≡ (
        returns (counted c (held ++ bytes)),
        stored_state c.filename bytes (counted c (held ++ bytes)) s,
      ))
        × ((x : FileUploadContext)
            → After lib c.filename (held ++ bytes) s (stored_state c.filename bytes x s))
  unfolding write_data
  write_data_lem c held bytes s h r k = (
    rw (h.takes bytes s.world) (
        ap (λ (x : FileUploadContext). (Res.returns x, stored_state c.filename bytes x s))
          (added_lem c held bytes k)),
    λ x. record { holds = h.appends bytes held s.world r; same_rest = refl },
  )

  -- The bodies of the requests that follow the first, on one connection.
  unfoldable pub next_pieces : FileUploadContext → List Bytes → M W FileUploadContext
  next_pieces c [] = pure c
  next_pieces c (body ∷ more) = next_piece lib c body >>= λ c'. next_pieces c' more

  -- The bodies hold no boundary.
  pub data IsPlain (boundary : Bytes) : List Bytes → Type 0 where
    no_more : IsPlain boundary []
    plain :
        {body : Bytes} {more : List Bytes}
        → find_text boundary body ≡ none
        → IsPlain boundary more
        → IsPlain boundary (body ∷ more)

  abbrev pub joined : List Bytes → Bytes
  joined [] = []
  joined (body ∷ more) = body ++ joined more

  -- A piece without the boundary.
  plain-piece :
      (c : FileUploadContext) (held body : Bytes) (s : Exchange W)
      → KeepsFile lib c.filename
      → lib.read_file c.filename s.world ≡ some held
      → Counts c held
      → c.state ≡ expect_boundary
      → find_text c.boundary body ≡ none
      → (s' : Exchange W) × (next_piece lib c body s ≡ (returns (counted c (held ++ body)), s'))
        × After lib c.filename (held ++ body) s s'
  unfolding next_piece at_state at_boundary
  plain-piece c held [] s h r k e none_here = (
    s,
    ap (λ (x : FileUploadContext). (Res.returns x, s)) (counted-nil c held k),
    record { holds = r ∙ ap some (sym (append-nil held)); same_rest = refl },
  )
  plain-piece c held (b ∷ body) s h r k e none_here =
      let filled : (length (b ∷ body) == 0) ≡ false = ground arith in
      let (p, a) = write_data_lem c held (b ∷ body) s h r k in
      (
        stored_state c.filename (b ∷ body) (counted c (held ++ (b ∷ body))) s,
        rw (filled, next_piece)
            (ap (λ st. at_state lib st c (b ∷ body) s) e
              ∙ rw (find_text-longer c.boundary (codes "--") (b ∷ body) none_here, at_boundary)
                  (rw none_here p)),
        a _,
      )

  abbrev closed : Exchange W → FileUploadContext → Res FileUploadContext × Exchange W
  closed s x = (
    returns (record x { state = complete }),
    record s { custom = some (upload (record x { state = complete })) },
  )

  -- The piece with the end boundary.
  last-piece :
      (c : FileUploadContext) (held body : Bytes) (end : ℕ) (s : Exchange W)
      → KeepsFile lib c.filename
      → lib.read_file c.filename s.world ≡ some held
      → Counts c held
      → c.state ≡ expect_boundary
      → find_text (c.boundary ++ codes "--") body ≡ some end
      → (s' : Exchange W) × (next_piece lib c body s
          ≡ closed s' (counted c (held ++ take end body)))
        × After lib c.filename (held ++ take end body) s s'
  unfolding next_piece at_state at_boundary set_state
  last-piece c held body zero s h r k e found =
      let filled : (length body == 0) ≡ false = not_empty c.boundary body zero found in
      (
        s,
        rw (filled, next_piece)
            (ap (λ st. at_state lib st c body s) e
              ∙ rw (found, at_boundary) (ap (closed s) (counted-nil c held k))),
        record { holds = r ∙ ap some (sym (append-nil held)); same_rest = refl },
      )
  last-piece c held body (suc end) s h r k e found =
      let bytes = take (suc end) body in
      let filled : (length body == 0) ≡ false = not_empty c.boundary body (suc end) found in
      let positive : ltb 0 (suc end) ≡ true = ground arith in
      let (p, a) = write_data_lem c held bytes s h r k in
      (
        stored_state c.filename bytes (counted c (held ++ bytes)) s,
        rw (filled, next_piece)
            (ap (λ st. at_state lib st c body s) e
              ∙ rw (found, at_boundary)
                  (rw positive (ap (bind (λ x. set_state lib x complete)) p))),
        a _,
      )

  -- A connection whose first body began the file sends bodies without the boundary, and at last
  -- one with the end boundary. The file at the upload's path then holds what it held before, these
  -- bodies one behind the other and of the last one what stands before the end boundary; the
  -- counter is the size of the file modulo 2 ^ 64, the upload is complete, and the connection holds
  -- this upload. Of the state of the handler only the world and the object of the connection differ. The counter was the size of
  -- the file before, the context waits for a boundary, and the file takes what is written to it.
  pub next_pieces-joined :
      (c : FileUploadContext) (held : Bytes) (bodies : List Bytes) (last : Bytes) (end : ℕ)
      (s : Exchange W)
      → KeepsFile lib c.filename
      → lib.read_file c.filename s.world ≡ some held
      → Counts c held
      → c.state ≡ expect_boundary
      → IsPlain c.boundary bodies
      → find_text (c.boundary ++ codes "--") last ≡ some end
      → (s' : Exchange W) × (next_pieces c (bodies ++ (last ∷ [])) s ≡ (
        returns
            (record (counted c (held ++ (joined bodies ++ take end last))) { state = complete }),
        s',
      ))
        × After lib c.filename (held ++ (joined bodies ++ take end last)) s s'
        × (s'.custom
            ≡ some (
                upload (record (counted c (held ++ (joined bodies ++ take end last))) {
                  state = complete;
                })))
  unfolding next_pieces
  next_pieces-joined c held [] last end s h r k e plain_ones found =
      let (s1, p, a) = last-piece c held last end s h r k e found in
      let x = counted c (held ++ take end last) in
      (
        (closed s1 x).1,
        ap (bind pure) p,
        record {
          holds = a.holds;
          same_rest =
              ap {A = Exchange W} (λ y. record y { custom = (closed s1 x).1.custom }) a.same_rest;
        },
        refl,
      )
  next_pieces-joined c held (body ∷ bodies) last end s h r k e (plain here more) found =
      let (s1, p, a) = plain-piece c held body s h r k e here in
      let (s', q, a', u) =
        next_pieces-joined (counted c (held ++ body)) (held ++ body) bodies last end s1 h a.holds
          refl e more found in
      let same : (held ++ body) ++ (joined bodies ++ take end last)
          ≡ held ++ ((body ++ joined bodies) ++ take end last) =
        append_assoc held body (joined bodies ++ take end last)
        ∙ ap (λ (l : Bytes). held ++ l) (sym (append_assoc body (joined bodies) (take end last))) in
      (
        s',
        ap (bind (λ x. next_pieces x (bodies ++ (last ∷ [])))) p
            ∙ q
            ∙ ap (λ (l : Bytes). (Res.returns (record (counted c l) { state = complete }), s'))
                same,
        subst (λ (l : Bytes). After lib c.filename l s s') same (After-trans a a'),
        u ∙ ap (λ (l : Bytes). some (upload (record (counted c l) { state = complete }))) same,
      )
