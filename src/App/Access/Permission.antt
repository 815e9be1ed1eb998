-- ===== src/App/Access/Permission.antt =====
-- The permission checks against the rules of the shares.
use cloud_storage.Common.{
  Bool, true, false, not, ◌&&◌, [], ◌∷◌, Option, none, some, Bytes, codes, if◌then◌else◌, bytes_eq,
  bytes_eq_iff, ◌≡◌, ◌≢◌, ◌↔◌, ◌⊎◌, inl, inr, refl, ap, arith,
}
use cloud_storage.App.Text.{ℤ, pos, negsuc, int_eq, is_some}
use cloud_storage.App.Access.{Visit, is_user, is_empty, is_shared, has_permission, session_user}

int_eq_iff : (a b : ℤ) → (int_eq a b ≡ true) ↔ (a ≡ b)
unfolding int_eq
int_eq_iff (pos m) (pos n) = ground arith
int_eq_iff (negsuc m) (negsuc n) = ground arith
int_eq_iff (pos m) (negsuc n) = ground arith
int_eq_iff (negsuc m) (pos n) = ground arith

-- The visitor has a valid session of this user.
abbrev pub IsUser : Visit → ℤ → Type 0
IsUser v id = (name : Bytes) × (v.session ≡ some (id, name))

is_user_iff :
    (session : Option (ℤ × Bytes)) (id : ℤ)
    → ((is_some session && int_eq (session_user session) id) ≡ true)
      ↔ ((name : Bytes) × (session ≡ some (id, name)))
is_user_iff none id = ((λ h. absurd cc), (λ h. absurd cc))
is_user_iff (some (user_id, username)) id = (
  (λ h. (username, ap (λ u. some (u, username)) ((int_eq_iff user_id id).0 h))),
  (λ h. (int_eq_iff user_id id).1 (ap (λ (s : Option (ℤ × Bytes)). session_user s) h.1)),
)

is_empty_iff : (s : Bytes) → (not (is_empty s) ≡ true) ↔ (s ≢ [])
is_empty_iff [] = ((λ h. absurd cc), (λ h. absurd (h refl)))
is_empty_iff (c ∷ s) = ((λ h e. absurd cc), (λ h. ground arith))

-- The tests of the types, one behind the other.
chain-cases :
    (p q r x y : Bool)
    → (if p then true else if q then x else if r then y else false) ≡ true
    → (p ≡ true) ⊎ ((q ≡ true) × (x ≡ true)) ⊎ ((r ≡ true) × (y ≡ true))
chain-cases p q r x y h = ground arith

chain-first :
    (p q r x y : Bool)
    → p ≡ true
    → (if p then true else if q then x else if r then y else false) ≡ true
chain-first p q r x y h = ground arith

chain-second :
    (p q r x y : Bool)
    → q ≡ true
    → x ≡ true
    → (if p then true else if q then x else if r then y else false) ≡ true
chain-second p q r x y h k = ground arith

chain-third :
    (p q r x y : Bool)
    → q ≡ false
    → r ≡ true
    → y ≡ true
    → (if p then true else if q then x else if r then y else false) ≡ true
chain-third p q r x y g h k = ground arith

both : (a b : Bool) → ((a && b) ≡ true) ↔ ((a ≡ true) × (b ≡ true))
both a b = ground arith

-- Whom a share admits.
pub data Shared (v : Visit) : Type 0 where
  to_all : v.share_type ≡ codes "public" → Shared v
  to_code :
      v.share_type ≡ codes "protected"
      → v.extract_code ≢ []
      → v.extract_code ≡ v.db_extract_code
      → Shared v
  to_user : v.share_type ≡ codes "user" → IsUser v v.shared_with_id → Shared v

abbrev is_public : Visit → Bool
is_public v = bytes_eq v.share_type (codes "public")

abbrev is_protected : Visit → Bool
is_protected v = bytes_eq v.share_type (codes "protected")

abbrev is_for_user : Visit → Bool
is_for_user v = bytes_eq v.share_type (codes "user")

abbrev has_code : Visit → Bool
has_code v = not (is_empty v.extract_code) && bytes_eq v.extract_code v.db_extract_code

is_shared-Shared : (v : Visit) → is_shared v ≡ true → Shared v
unfolding is_shared
is_shared-Shared v h =
    elim (chain-cases (is_public v) (is_protected v) (is_for_user v) (has_code v)
      (is_user v v.shared_with_id) h) [
        | inl e ↦ to_all ((bytes_eq_iff v.share_type (codes "public")).0 e)
        | inr (inl (e, x)) ↦
            let (filled, same) =
              (both (not (is_empty v.extract_code)) (bytes_eq v.extract_code v.db_extract_code)).0
                x in
            to_code ((bytes_eq_iff v.share_type (codes "protected")).0 e)
              ((is_empty_iff v.extract_code).0 filled)
              ((bytes_eq_iff v.extract_code v.db_extract_code).0 same)
        | inr (inr (e, y)) ↦
            to_user ((bytes_eq_iff v.share_type (codes "user")).0 e)
              ((is_user_iff v.session v.shared_with_id).0 y)
      ]

Shared-is_shared : (v : Visit) → Shared v → is_shared v ≡ true
unfolding is_shared bytes_eq
Shared-is_shared v (to_all e) =
    chain-first (is_public v) (is_protected v) (is_for_user v) (has_code v)
      (is_user v v.shared_with_id) ((bytes_eq_iff v.share_type (codes "public")).1 e)
Shared-is_shared v (to_code e filled same) =
    chain-second (is_public v) (is_protected v) (is_for_user v) (has_code v)
      (is_user v v.shared_with_id) ((bytes_eq_iff v.share_type (codes "protected")).1 e)
      ((both (not (is_empty v.extract_code)) (bytes_eq v.extract_code v.db_extract_code)).1 (
        (is_empty_iff v.extract_code).1 filled,
        (bytes_eq_iff v.extract_code v.db_extract_code).1 same,
      ))
Shared-is_shared v (to_user e user) =
    chain-third (is_public v) (is_protected v) (is_for_user v) (has_code v)
      (is_user v v.shared_with_id) (ap (λ t. bytes_eq t (codes "protected")) e)
      ((bytes_eq_iff v.share_type (codes "user")).1 e)
      ((is_user_iff v.session v.shared_with_id).1 user)

-- Whom `handleDownload` is to admit: the owner, and with a share code whom the share admits.
pub data Granted (v : Visit) : Type 0 where
  to_owner : IsUser v v.file_owner_id → Granted v
  to_visitor : v.share_code ≢ [] → Shared v → Granted v

owner-cases :
    (owner coded shared known same : Bool)
    → (if owner then true else if coded then shared else if known then same else false) ≡ true
    → (owner ≡ (known && same))
    → (owner ≡ true) ⊎ ((coded ≡ true) × (shared ≡ true))
owner-cases owner coded shared known same h e = ground arith

owner-granted :
    (owner coded shared rest : Bool)
    → (owner ≡ true) ⊎ ((coded ≡ true) × (shared ≡ true))
    → (if owner then true else if coded then shared else rest) ≡ true
owner-granted owner coded shared rest h = ground arith

-- The check of a download grants access to the owner's session, and to a request with a share
-- code if the share is public, if it is protected and the request has its extract code, which is
-- not empty, or if it is for one user and the session is that user's; and to no one else.
pub has_permission-Granted : (v : Visit) → (has_permission v ≡ true) ↔ Granted v
unfolding has_permission
has_permission-Granted v = (
  (λ h.
      elim (owner-cases (is_user v v.file_owner_id) (not (is_empty v.share_code)) (is_shared v)
        (is_some v.session) (int_eq (session_user v.session) v.file_owner_id) h refl) [
          | inl e ↦ to_owner ((is_user_iff v.session v.file_owner_id).0 e)
          | inr (coded, shared) ↦
              to_visitor ((is_empty_iff v.share_code).0 coded) (is_shared-Shared v shared)
        ]),
  (λ g. elim g [
    | to_owner user ↦
        owner-granted (is_user v v.file_owner_id) (not (is_empty v.share_code)) (is_shared v)
          (if is_some v.session then int_eq (session_user v.session) v.file_owner_id else false)
          (inl ((is_user_iff v.session v.file_owner_id).1 user))
    | to_visitor filled shared ↦
        owner-granted (is_user v v.file_owner_id) (not (is_empty v.share_code)) (is_shared v)
          (if is_some v.session then int_eq (session_user v.session) v.file_owner_id else false)
          (inr ((is_empty_iff v.share_code).1 filled, Shared-is_shared v shared))
  ]),
)
