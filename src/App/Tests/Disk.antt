-- ===== src/App/Tests/Disk.antt =====
-- A platform with files that keep what is written, for the examples.
use cloud_storage.Common.{
  ℕ, zero, suc, List, true, false, [], ◌∷◌, ◌++◌, Option, none, some, Bytes, codes, ◌≡◌, refl, ap,
  ◌∙◌, bytes_eq, bytes_eq_refl, if◌then◌else◌,
}
use cloud_storage.Http.Headers.{Headers}
use cloud_storage.App.Text.{pos, is_some}
use cloud_storage.App.Platform.{Platform, returns}
use cloud_storage.App.Storage.{KeepsFile, KeepsMaps}

abbrev pub World : Type 0
World = Bytes → Option Bytes

abbrev pub put : Bytes → Option Bytes → World → World
put path held w p = if bytes_eq p path then held else w p

abbrev extended : Option Bytes → Bytes → Option Bytes
extended none bytes = none
extended (some held) bytes = some (held ++ bytes)

-- The text of a map: each name shifted by one, with a zero behind it.
shifted : Bytes → Bytes → Bytes
shifted [] more = 0 ∷ more
shifted (c ∷ cs) more = suc c ∷ shifted cs more

pub map_text : Headers → Bytes
unfolding shifted
map_text [] = []
map_text ((k, v) ∷ m) = shifted k (shifted v (map_text m))

begin_with : ℕ → List Bytes → List Bytes
begin_with c [] = (c ∷ []) ∷ []
begin_with c (t ∷ ts) = (c ∷ t) ∷ ts

pub words : Bytes → List Bytes
unfolding begin_with
words [] = []
words (zero ∷ cs) = [] ∷ words cs
words (suc c ∷ cs) = begin_with c (words cs)

pub paired : List Bytes → Headers
paired [] = []
paired (k ∷ []) = []
paired (k ∷ v ∷ ts) = (k, v) ∷ paired ts

words-shifted : (t more : Bytes) → words (shifted t more) ≡ t ∷ words more
unfolding words shifted
words-shifted [] more = refl
words-shifted (c ∷ t) more = ap (begin_with c) (words-shifted t more)

paired-map_text : (m : Headers) → paired (words (map_text m)) ≡ m
unfolding map_text paired words
paired-map_text [] = refl
paired-map_text ((k, v) ∷ m) =
    rw (words-shifted k (shifted v (map_text m)), words-shifted v (map_text m))
      (ap (◌∷◌ (k, v)) (paired-map_text m))

abbrev pub disk : Platform World (Unit {0})
disk = record {
  init_mysql = λ w. (true, w);
  connect_mysql = λ w. (true, w);
  set_character_set = λ w. (true, w);
  run_query = λ q w. (true, w);
  store_result = λ w. (none, w);
  insert_id = λ w. 0;
  escape = λ s. s;
  parse = λ s. returns tt;
  text_at = λ d k. returns [];
  int_at = λ d k. returns (pos 0);
  contains = λ d k. false;
  is_null_at = λ d k. false;
  text_or = λ d k t. returns t;
  dump = λ j. [];
  hash_text = λ s. s;
  clock = λ w. (0, w);
  random = λ a b w. (a, w);
  make_directory = λ p w. w;
  exists = λ p w. is_some (w p);
  is_regular_file = λ p w. is_some (w p);
  file_size = λ p w. 0;
  read_file = λ p w. w p;
  create_file = λ p w. (true, put p (some []) w);
  write_file = λ p b w. (true, put p (extended (w p) b) w);
  unlink = λ p w. (true, w);
  dump_mapping = λ m. some (map_text m);
  parse_mapping = λ t. some (paired (words t));
  project_root = codes "/srv";
  scan_hex = λ s. none;
  scanner = record { scan_hex = λ a b. 0 };
}

-- A path at which `disk` keeps what is written.
put_lem : (path : Bytes) (held : Option Bytes) (w : World) → put path held w path ≡ held
put_lem path held w = rw (bytes_eq_refl path) refl

pub disk-KeepsFile : (path : Bytes) → KeepsFile disk path
disk-KeepsFile path = record {
  opens = λ w. refl;
  empties = λ w. put_lem path (some []) w;
  takes = λ b w. refl;
  appends = λ b held w r. put_lem path (extended (w path) b) w ∙ ap (λ h. extended h b) r;
  there = λ held w r. ap is_some r;
}

pub disk-KeepsMaps : KeepsMaps disk
disk-KeepsMaps = record { parses = λ m a u. (map_text m, refl, ap some (paired-map_text m)) }
