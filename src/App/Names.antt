-- ===== src/App/Names.antt =====
-- The map from the names of the stored files to the original ones, and its file.
pub mod Lookup
pub mod Ordered
use cloud_storage.Common.{
  Bool, true, false, List, [], ◌∷◌, Option, none, some, Bytes, codes, bytes_eq, if◌then◌else◌,
}
use cloud_storage.Http.Headers
use cloud_storage.Http.Headers.{Headers}
use cloud_storage.App.Platform.{Platform}
use cloud_storage.App.Effects.{Exchange, M, ◌>>=◌, ◌>>◌, pure, get, modify, on_world}

abbrev pub mapping_file : Bytes
mapping_file = codes "uploads/filename_mapping.json"

-- `map.erase(key)`.
unfoldable pub erase : Bytes → Headers → Headers
erase k [] = []
erase k ((j, w) ∷ m) = let rest = erase k m in if bytes_eq j k then rest else (j, w) ∷ rest

module _ {W D : Type 0} (lib : Platform W D) where
  -- `loadFilenameMappingInternal`: what cannot be read leaves the map as it is.
  unfoldable pub load_mapping : M W (Unit {0})
  load_mapping = do
    s ← get
    if lib.exists mapping_file s.world
        then elim (lib.read_file mapping_file s.world) [
          | none ↦ pure tt
          | some t ↦ elim (lib.parse_mapping t) [
            | none ↦ pure tt
            | some m ↦ modify (λ t. record t { mapping = m })
          ]
        ]
        else pure tt

  -- `saveFilenameMappingInternal`: the file is opened first, and stays empty where `dump` throws.
  -- A stream that did not open writes nothing.
  unfoldable pub save_mapping : M W (Unit {0})
  save_mapping = do
    s ← get
    opened ← on_world (lib.create_file mapping_file)
    elim (lib.dump_mapping s.mapping) [
      | none ↦ pure tt
      | some t ↦
          if opened then (do _ ← on_world (lib.write_file mapping_file t); pure tt) else pure tt
    ]

  unfoldable pub add_filename_mapping : Bytes → Bytes → M W (Unit {0})
  add_filename_mapping server_filename original_filename = do
    load_mapping
    modify (λ s. record s { mapping = Headers.set server_filename original_filename s.mapping })
    save_mapping

  unfoldable pub erase_filename_mapping : Bytes → M W (Unit {0})
  erase_filename_mapping filename = do
    load_mapping
    modify (λ s. record s { mapping = erase filename s.mapping })
    save_mapping

  unfoldable pub get_original_filename : Bytes → M W Bytes
  get_original_filename server_filename = do
    load_mapping
    s ← get
    pure (elim (Headers.find server_filename s.mapping) [
      | some original ↦ original
      | none ↦ server_filename
    ])

  unfoldable pub get_all_file_mappings : M W Headers
  get_all_file_mappings = do load_mapping; s ← get; pure s.mapping
