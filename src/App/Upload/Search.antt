-- ===== src/App/Upload/Search.antt =====
-- Searches for a word and for a longer one.
use cloud_storage.Common.{
  ℕ, suc, Bool, true, false, [], ◌∷◌, ◌++◌, Option, none, some, Bytes, if◌then◌else◌, ◌≡◌, refl, ap,
  arith,
}
use mathlib.Core.Option
use cloud_storage.App.Text.{after_prefix, find_text, is_some}

-- What `find_text` finds none of.
map-none : (r : Option ℕ) → Option.map suc r ≡ none → r ≡ none
map-none none h = refl
map-none (some n) h = absurd cc

none_of_test :
    (t : Bool) (r : Option ℕ) → (if t then some 0 else r) ≡ none → (t ≡ false) × (r ≡ none)
none_of_test true r h = absurd cc
none_of_test false r h = (refl, h)

after_prefix-longer :
    (w v s : Bytes) → is_some (after_prefix w s) ≡ false → is_some (after_prefix (w ++ v) s) ≡ false
unfolding after_prefix
after_prefix-longer [] v s h = absurd cc
after_prefix-longer (x ∷ w) v [] h = refl
after_prefix-longer (x ∷ w) v (c ∷ s) h = ground (arith, after_prefix-longer w v s)

pub find_text-longer : (w v s : Bytes) → find_text w s ≡ none → find_text (w ++ v) s ≡ none
unfolding find_text
find_text-longer w v [] h =
    let (e, _) = none_of_test (is_some (after_prefix w [])) none h in
    rw (after_prefix-longer w v [] e) refl
find_text-longer w v (c ∷ s) h =
    let (e, r) = none_of_test (is_some (after_prefix w (c ∷ s))) _ h in
    rw (after_prefix-longer w v (c ∷ s) e)
      (ap (Option.map suc) (find_text-longer w v s (map-none _ r)))
