-- ===== src/App/Names/Ordered.antt =====
-- Changes keep a map in the order of its keys, and its texts in UTF-8.
use cloud_storage.Common.{
  true, Bool-cases, inl, inr, [], ◌∷◌, Bytes, bytes_eq, bytes_lt, ◌≡◌, refl, arith,
}
use cloud_storage.Http.Headers
use cloud_storage.Http.Headers.{Headers}
use cloud_storage.App.Names.{erase}
use cloud_storage.App.Storage.{IsUtf8, AreUtf8, IsBelow, IsAscending}

bytes_lt_trans : (a b c : Bytes) → bytes_lt a b ≡ true → bytes_lt b c ≡ true → bytes_lt a c ≡ true
unfolding bytes_lt
bytes_lt_trans [] [] c h k = absurd cc
bytes_lt_trans [] (y ∷ b) [] h k = absurd cc
bytes_lt_trans [] (y ∷ b) (z ∷ c) h k = refl
bytes_lt_trans (x ∷ a) [] c h k = absurd cc
bytes_lt_trans (x ∷ a) (y ∷ b) [] h k = absurd cc
bytes_lt_trans (x ∷ a) (y ∷ b) (z ∷ c) h k = ground (arith, bytes_lt_trans a b c)

-- What is below a map.
IsBelow-trans : (k j : Bytes) (m : Headers) → bytes_lt k j ≡ true → IsBelow j m → IsBelow k m
IsBelow-trans k j [] h b = tt
IsBelow-trans k j ((i, w) ∷ m) h (l, b) = (bytes_lt_trans k j i h l, IsBelow-trans k j m h b)

set-IsBelow :
    (i k v : Bytes) (m : Headers)
    → bytes_lt i k ≡ true
    → IsBelow i m
    → IsBelow i (Headers.set k v m)
unfolding Headers.set
set-IsBelow i k v [] h b = (h, tt)
set-IsBelow i k v ((j, w) ∷ m) h (l, b) = elim (Bool-cases (bytes_lt k j)) [
  | inl e ↦ rw (Headers.set, e) (h, (l, b))
  | inr e ↦ elim (Bool-cases (bytes_lt j k)) [
    | inl f ↦ rw (Headers.set, e, f) (l, set-IsBelow i k v m h b)
    | inr f ↦ rw (Headers.set, e, f) (l, b)
  ]
]

pub set-IsAscending : (k v : Bytes) (m : Headers) → IsAscending m → IsAscending (Headers.set k v m)
unfolding Headers.set
set-IsAscending k v [] a = (tt, tt)
set-IsAscending k v ((j, w) ∷ m) (b, a) = elim (Bool-cases (bytes_lt k j)) [
  | inl e ↦ rw (Headers.set, e) ((e, IsBelow-trans k j m e b), (b, a))
  | inr e ↦ elim (Bool-cases (bytes_lt j k)) [
    | inl f ↦ rw (Headers.set, e, f) (set-IsBelow j k v m f b, set-IsAscending k v m a)
    | inr f ↦ rw (Headers.set, e, f) (b, a)
  ]
]

erase-IsBelow : (i k : Bytes) (m : Headers) → IsBelow i m → IsBelow i (erase k m)
unfolding erase
erase-IsBelow i k [] b = tt
erase-IsBelow i k ((j, w) ∷ m) (l, b) = elim (Bool-cases (bytes_eq j k)) [
  | inl e ↦ rw (erase, e) (erase-IsBelow i k m b)
  | inr e ↦ rw (erase, e) (l, erase-IsBelow i k m b)
]

pub erase-IsAscending : (k : Bytes) (m : Headers) → IsAscending m → IsAscending (erase k m)
unfolding erase
erase-IsAscending k [] a = tt
erase-IsAscending k ((j, w) ∷ m) (b, a) = elim (Bool-cases (bytes_eq j k)) [
  | inl e ↦ rw (erase, e) (erase-IsAscending k m a)
  | inr e ↦ rw (erase, e) (erase-IsBelow j k m b, erase-IsAscending k m a)
]

pub set-AreUtf8 :
    (k v : Bytes) (m : Headers) → IsUtf8 k → IsUtf8 v → AreUtf8 m → AreUtf8 (Headers.set k v m)
unfolding Headers.set
set-AreUtf8 k v [] h g a = (h, g, tt)
set-AreUtf8 k v ((j, w) ∷ m) h g (p, q, a) = elim (Bool-cases (bytes_lt k j)) [
  | inl e ↦ rw (Headers.set, e) (h, g, (p, q, a))
  | inr e ↦ elim (Bool-cases (bytes_lt j k)) [
    | inl f ↦ rw (Headers.set, e, f) (p, q, set-AreUtf8 k v m h g a)
    | inr f ↦ rw (Headers.set, e, f) (p, g, a)
  ]
]

pub erase-AreUtf8 : (k : Bytes) (m : Headers) → AreUtf8 m → AreUtf8 (erase k m)
unfolding erase
erase-AreUtf8 k [] a = tt
erase-AreUtf8 k ((j, w) ∷ m) (p, q, a) = elim (Bool-cases (bytes_eq j k)) [
  | inl e ↦ rw (erase, e) (erase-AreUtf8 k m a)
  | inr e ↦ rw (erase, e) (p, q, erase-AreUtf8 k m a)
]
