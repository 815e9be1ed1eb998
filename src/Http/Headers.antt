-- ===== src/Http/Headers.antt =====
-- `std::map<std::string, std::string>`, as HttpRequest and HttpResponse use it: pairs in the order
-- of their keys.
use cloud_storage.Common.{
  ◌≡◌, refl, List, [], ◌∷◌, Option, none, some, Bytes, arith, bytes_eq, bytes_eq_iff, bytes_lt,
  bytes_lt_total, if◌then◌else◌,
}

abbrev pub Headers : Type 0
Headers = List (Bytes × Bytes)

-- `map[key] = value`.
unfoldable pub set : Bytes → Bytes → Headers → Headers
set k v [] = (k, v) ∷ []
set k v ((j, w) ∷ m) =
    let rest = set k v m in
    if bytes_lt k j then (k, v) ∷ (j, w) ∷ m else if bytes_lt j k then (j, w) ∷ rest else (j, v) ∷ m

-- `map.find(key)`.
unfoldable pub find : Bytes → Headers → Option Bytes
find k [] = none
find k ((j, w) ∷ m) = if bytes_eq j k then some w else find k m

pub find-set :
    (k j v : Bytes) (m : Headers) → find j (set k v m) ≡ (if bytes_eq k j then some v else find j m)
unfolding find set
find-set k j v [] = refl
find-set k j v ((i, w) ∷ m) =
    ground (arith, find-set k j v m, bytes_lt_total k i, bytes_eq_iff k j, bytes_eq_iff i j)
