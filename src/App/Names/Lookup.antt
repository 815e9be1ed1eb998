-- ===== src/App/Names/Lookup.antt =====
-- The original names that the map gives.
use cloud_storage.Common.{
  true, Bool-cases, Option-cases, inl, inr, [], ◌∷◌, none, some, Bytes, bytes_eq, bytes_eq_iff, ◌≡◌,
  refl, ap, sym, subst, ◌∙◌, arith, if◌then◌else◌,
}
use cloud_storage.Http.Headers
use cloud_storage.Http.Headers.{Headers, find-set}
use cloud_storage.App.Platform.{Platform, Res, returns}
use cloud_storage.App.Effects.{Exchange, ◌>>◌, bind}
use cloud_storage.App.Storage.{KeepsFile, KeepsMaps, IsUtf8, AreUtf8, IsAscending}
use cloud_storage.App.Names.Ordered.{set-IsAscending, erase-IsAscending, set-AreUtf8, erase-AreUtf8}
use cloud_storage.App.Names.{
  mapping_file, erase, load_mapping, save_mapping, add_filename_mapping, erase_filename_mapping,
  get_original_filename,
}

-- The name that a map gives.
abbrev pub name_in : Headers → Bytes → Bytes
name_in m name = elim (Headers.find name m) [ some original ↦ original | none ↦ name ]

find-erase :
    (k j : Bytes) (m : Headers)
    → Headers.find j (erase k m) ≡ (if bytes_eq k j then none else Headers.find j m)
unfolding Headers.find erase
find-erase k j [] = elim (Bool-cases (bytes_eq k j)) [ inl e ↦ rw e refl | inr e ↦ rw e refl ]
find-erase k j ((i, w) ∷ m) =
    ground (arith, find-erase k j m, bytes_eq_iff i j, bytes_eq_iff i k, bytes_eq_iff k j)

module _ {W D : Type 0} (lib : Platform W D) where
  -- The map that the next reader of the file finds.
  abbrev pub loaded : Exchange W → Headers
  loaded s = (load_mapping lib s).1.mapping

  -- The world when a map has been saved.
  abbrev pub saved_world : Headers → W → W
  saved_world m w = elim (lib.dump_mapping m) [
    | none ↦ (lib.create_file mapping_file w).1
    | some t ↦ (lib.write_file mapping_file t (lib.create_file mapping_file w).1).1
  ]

  -- The state when a map has been loaded, changed and saved.
  abbrev pub after_save : Headers → Exchange W → Exchange W
  after_save m s = record s { mapping = m; world = saved_world m s.world }

  save_mapping_lem :
      KeepsFile lib mapping_file
      → (m : Headers) (t : Bytes) (s : Exchange W) → lib.dump_mapping m ≡ some t
      → save_mapping lib (record s { mapping = m }) ≡ (
        returns tt,
        record s {
          mapping = m;
          world = (lib.write_file mapping_file t (lib.create_file mapping_file s.world).1).1;
        },
      )
  unfolding save_mapping
  save_mapping_lem h m t s e = rw (e, save_mapping, h.opens s.world) refl

  found_name :
      (m : Headers) (t name : Bytes) (s : Exchange W)
      → lib.exists mapping_file s.world ≡ true
      → lib.read_file mapping_file s.world ≡ some t
      → lib.parse_mapping t ≡ some m
      → get_original_filename lib name (record s { mapping = m })
        ≡ (returns (name_in m name), record s { mapping = m })
  unfolding get_original_filename load_mapping
  found_name m t name s there reads parses = rw there (rw reads (rw parses refl))

  saved_name :
      KeepsFile lib mapping_file
      → KeepsMaps lib
      → (m : Headers) (name : Bytes) (s : Exchange W) → IsAscending m
      → AreUtf8 m
      → (save_mapping lib >> get_original_filename lib name) (record s { mapping = m })
        ≡ (returns (name_in m name), after_save m s)
  saved_name h j m name s a u =
      let (t, e, p) = j.parses m a u in
      let opened = (lib.create_file mapping_file s.world).1 in
      let w = (lib.write_file mapping_file t opened).1 in
      let here : saved_world m s.world ≡ w = rw (e, saved_world) refl in
      let reads : lib.read_file mapping_file w ≡ some t =
        h.appends t [] opened (h.empties s.world) in
      let there = h.there t w reads in
      ap (bind (λ _. get_original_filename lib name)) (save_mapping_lem h m t s e)
      ∙ found_name m t name (record s { world = w }) there reads p
      ∙ ap (λ (x : W). (Res.returns (name_in m name), record s { mapping = m; world = x }))
          (sym here)

  name_in-set :
      (f o name : Bytes) (m : Headers)
      → name_in (Headers.set f o m) name ≡ (if bytes_eq f name then o else name_in m name)
  name_in-set f o name m = elim (Bool-cases (bytes_eq f name)) [
    | inl e ↦ rw (find-set f name o m, name_in) (rw e refl)
    | inr e ↦ rw (find-set f name o m, name_in) (rw e refl)
  ]

  name_in-erase :
      (f name : Bytes) (m : Headers)
      → name_in (erase f m) name ≡ (if bytes_eq f name then name else name_in m name)
  name_in-erase f name m = elim (Bool-cases (bytes_eq f name)) [
    | inl e ↦ rw (find-erase f name m, name_in) (rw e refl)
    | inr e ↦ rw (find-erase f name m, name_in) (rw e refl)
  ]

  -- An outcome that differs from the state in its map alone.
  abbrev Keeps : Exchange W → Res (Unit {0}) × Exchange W → Type 0
  Keeps s out = out ≡ (returns tt, record s { mapping = out.1.mapping })

  Keeps-as :
      (s : Exchange W) (m : Headers)
      → load_mapping lib s ≡ (returns tt, record s { mapping = m })
      → Keeps s (load_mapping lib s)
  Keeps-as s m p = subst (Keeps s) (sym p) refl

  load_mapping-Keeps : (s : Exchange W) → Keeps s (load_mapping lib s)
  unfolding load_mapping
  load_mapping-Keeps s = elim (Bool-cases (lib.exists mapping_file s.world)) [
    | inr e ↦ Keeps-as s s.mapping (rw (e, load_mapping) refl)
    | inl e ↦ elim (Option-cases (lib.read_file mapping_file s.world)) [
      | inl f ↦ Keeps-as s s.mapping (rw (e, load_mapping) (rw f refl))
      | inr (t, f) ↦ elim (Option-cases (lib.parse_mapping t)) [
        | inl g ↦ Keeps-as s s.mapping (rw (e, load_mapping) (rw f (rw g refl)))
        | inr (m, g) ↦ Keeps-as s m (rw (e, load_mapping) (rw f (rw g refl)))
      ]
    ]
  ]

  -- A name that has been added to the map is the one that the next look at the file gives, and
  -- one that has been erased gives itself; every other name gives what it gave before. The map that
  -- is loaded is in the order of its keys, as a `std::map` is, and the names in it and the new ones
  -- are texts in UTF-8; the file of the names can be opened and takes what is written to it, and
  -- the JSON text of such a map parses to the map.
  pub get_original_filename-changed :
      KeepsFile lib mapping_file
      → KeepsMaps lib
      → (f o name : Bytes) (s : Exchange W) → IsAscending (loaded s)
      → AreUtf8 (loaded s)
      → IsUtf8 f
      → IsUtf8 o
      → ((add_filename_mapping lib f o >> get_original_filename lib name) s ≡ (
        returns (if bytes_eq f name then o else name_in (loaded s) name),
        after_save (Headers.set f o (loaded s)) s,
      ))
        × ((erase_filename_mapping lib f >> get_original_filename lib name) s ≡ (
          returns (if bytes_eq f name then name else name_in (loaded s) name),
          after_save (erase f (loaded s)) s,
        ))
  unfolding add_filename_mapping erase_filename_mapping
  get_original_filename-changed h j f o name s a u is_f is_o =
      let m = loaded s in
      (
        rw (load_mapping-Keeps s) (
            saved_name h j (Headers.set f o m) name s (set-IsAscending f o m a)
              (set-AreUtf8 f o m is_f is_o u)
            ∙ ap (λ x. (Res.returns x, after_save (Headers.set f o m) s)) (name_in-set f o name m)),
        rw (load_mapping-Keeps s) (
            saved_name h j (erase f m) name s (erase-IsAscending f m a) (erase-AreUtf8 f m u)
            ∙ ap (λ x. (Res.returns x, after_save (erase f m) s)) (name_in-erase f name m)),
      )
