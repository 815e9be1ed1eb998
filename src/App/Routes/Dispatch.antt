-- ===== src/App/Routes/Dispatch.antt =====
-- The routes of the paths that hold a name.
use cloud_storage.Common.{
  ℕ, false, List, [], ◌∷◌, ◌++◌, Option, none, some, Bytes, codes, ◌==◌, ◌≡◌, refl, ap, arith,
  Lacks,
}
use mathlib.Core.Option
use cloud_storage.Http.Request.{Method}
use cloud_storage.App.Pattern.{match_segment, match_parts, regex_match, longer}
use cloud_storage.App.Routes.{
  find_route, init_routes, same_method, exact_route, param_route, RequestHandler, download,
  share_access, share_download, share_info, delete,
}

-- One part of a path, between two slashes.
abbrev pub IsSegment : Bytes → Type 0
IsSegment [] = ⊥
IsSegment (c ∷ cs) = Lacks b'/' (c ∷ cs)

match_segment_lem :
    (c : ℕ) (cs : Bytes)
    → Lacks b'/' (c ∷ cs)
    → match_segment (match_parts false []) (c ∷ cs) ≡ some ((c ∷ cs) ∷ [])
unfolding match_parts
match_segment_lem c [] h =
    let e : (c == b'/') ≡ false = ground (arith, h.0) in rw (e, match_segment) refl
match_segment_lem c (d ∷ cs) h =
    let e : (c == b'/') ≡ false = ground (arith, h.0) in
    rw (e, match_segment)
      (ap
        (λ r. elim r as (λ _. Option (List Bytes)) [
          | some groups ↦ some (longer c groups)
          | none ↦ Option.map (◌∷◌ (c ∷ [])) none
        ])
        (match_segment_lem d cs h.1))

-- What `onRequest` finds for a path.
abbrev pub route_of : Method → Bytes → Option (RequestHandler × List (Bytes × Bytes))
route_of = find_route init_routes

-- The table sends a path that ends in a name, which is not empty and has no slash, to one handler
-- with this name as its parameter, although the patterns begin alike: GET and HEAD of
-- /download/name to the download, DELETE of /delete/name to the removal, and GET of /share/name, of
-- /share/download/name and of /share/info/name to three different handlers.
pub find_route-segment :
    (name : Bytes)
    → IsSegment name
    → (route_of Method.get (codes "/download/" ++ name)
        ≡ some (download, (codes "filename", name) ∷ []))
      × (route_of Method.head (codes "/download/" ++ name)
          ≡ some (download, (codes "filename", name) ∷ []))
      × (route_of Method.delete (codes "/delete/" ++ name)
          ≡ some (delete, (codes "filename", name) ∷ []))
      × (route_of Method.get (codes "/share/" ++ name)
          ≡ some (share_access, (codes "code", name) ∷ []))
      × (route_of Method.get (codes "/share/download/" ++ name)
          ≡ some (share_download, (codes "filename", name) ∷ []))
      × (route_of Method.get (codes "/share/info/" ++ name)
          ≡ some (share_info, (codes "code", name) ∷ []))
unfolding find_route init_routes same_method exact_route param_route regex_match match_parts
find_route-segment [] h = absurd h
find_route-segment (c ∷ cs) h =
    let m = match_segment_lem c cs h in
    (
      rw (m, find_route) refl,
      rw (m, find_route) refl,
      rw (m, find_route) refl,
      rw (m, find_route) refl,
      rw (m, find_route) refl,
      rw (m, find_route) refl,
    )
