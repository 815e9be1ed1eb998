-- ===== src/EventLoopThreadPool/Rounds.antt =====
-- Calls of `getNextLoop`, one after the other.
use cloud_storage.Common.{
  ℕ, zero, suc, ◌+◌, ◌-◌, ◌<◌, ◌≡◌, refl, sym, ap, ◌∙◌, true, false, List, [], ◌∷◌, ◌++◌, Option,
  some, map, length, take, drop, get_elem?, leb, ◌==◌, if◌then◌else◌, Result, ok, ◌>>=◌, arith,
  length-append, append_assoc, take-append-drop, append-nil, lt→leb_false, le→leb, length-take,
  length-drop, Bool-cases, inl, inr,
}
use mathlib.Core.List.{map-append}
use cloud_storage.EventLoopThreadPool.{EventLoopThreadPool, get_next_loop}

-- Where the index stands behind `k` of `n` loops.
abbrev wrap : ℕ → ℕ → ℕ
wrap n k = if leb n k then 0 else k

wrap-zero : (n : ℕ) → wrap n 0 ≡ 0
wrap-zero n = elim (Bool-cases (leb n 0)) [ inl t ↦ rw t refl | inr f ↦ rw f refl ]

module _ {ℓ} {A : Type ℓ} where
  -- So many calls of `getNextLoop`: the loops that they return.
  abbrev pub serve : ℕ → EventLoopThreadPool A → Result (List (Option A) × EventLoopThreadPool A)
  serve zero p = ok ([], p)
  serve (suc n) p =
      get_next_loop p >>= λ first. serve n first.1 >>= λ more. ok (first.0 ∷ more.0, more.1)

  get_elem?-append : (xs ys : List A) (y : A) → get_elem? (xs ++ (y ∷ ys)) (length xs) ≡ some y
  get_elem?-append [] ys y = refl
  get_elem?-append (x ∷ xs) ys y = get_elem?-append xs ys y

  module _ (p : EventLoopThreadPool A) where
    -- The pool as it runs, with index `k`.
    abbrev at_index : ℕ → EventLoopThreadPool A
    at_index k = record p { started = true; next = k }

    next_loop :
        (pre post : List A) (x : A)
        → p.loops ≡ pre ++ (x ∷ post)
        → get_next_loop (at_index (length pre))
          ≡ ok (some x, at_index (wrap (length p.loops) (length pre + 1)))
    unfolding get_next_loop
    next_loop pre post x e =
        let size : length p.loops ≡ length pre + suc (length post) =
          ap length e ∙ length-append pre (x ∷ post) in
        let some_loops : (length p.loops == 0) ≡ false = ground arith in
        let found : get_elem? p.loops (length pre) ≡ some x =
          ap (λ (xs : List A). get_elem? xs (length pre)) e ∙ get_elem?-append pre post x in
        rw some_loops (rw found refl)

    -- The loops `mid` behind the first ones, then what the next `n` calls return.
    serve_run :
        (pre mid post : List A) (n : ℕ) (zs : List (Option A)) (q : EventLoopThreadPool A)
        → p.loops ≡ pre ++ (mid ++ post)
        → serve n (at_index (wrap (length p.loops) (length pre + length mid))) ≡ ok (zs, q)
        → serve (length mid + n) (at_index (wrap (length p.loops) (length pre)))
          ≡ ok (map some mid ++ zs, q)
    serve_run pre [] post n zs q e later =
        let stays : length pre ≡ length pre + 0 = omega arith in
        let none_more : 0 + n ≡ n = omega arith in
        ap (λ (k : ℕ). serve k (at_index (wrap (length p.loops) (length pre)))) none_more
        ∙ ap (λ (k : ℕ). serve n (at_index (wrap (length p.loops) k))) stays
        ∙ later
    serve_run pre (x ∷ mid) post n zs q e later =
        let size : length p.loops ≡ length pre + suc (length (mid ++ post)) =
          ap length e ∙ length-append pre (x ∷ (mid ++ post)) in
        let inside : leb (length p.loops) (length pre) ≡ false = ground arith in
        let grown : length (pre ++ (x ∷ [])) ≡ length pre + 1 = length-append pre (x ∷ []) in
        let sum : length (pre ++ (x ∷ [])) + length mid ≡ length pre + suc (length mid) =
          omega arith in
        let more =
          serve_run (pre ++ (x ∷ [])) mid post n zs q
            (e ∙ sym (append_assoc pre (x ∷ []) (mid ++ post)))
            (ap (λ (k : ℕ). serve n (at_index (wrap (length p.loops) k))) sum ∙ later) in
        let count : suc (length mid) + n ≡ suc (length mid + n) = omega arith in
        ap (λ (k : ℕ). serve k (at_index (wrap (length p.loops) (length pre)))) count
        ∙ rw inside (
            rw (next_loop pre (mid ++ post) x e) (
              rw
                (ap (λ (k : ℕ). serve (length mid + n) (at_index (wrap (length p.loops) k)))
                    (sym grown)
                  ∙ more)
                refl))

    cycle :
        (k : ℕ)
        → k < length p.loops
        → serve (length p.loops) (at_index k)
          ≡ ok (map some (drop k p.loops) ++ (map some (take k p.loops) ++ []), at_index k)
    cycle k h =
        let xs = p.loops in
        let n : length (take k xs) ≡ k = omega (arith, length-take k xs) in
        let m : length (drop k xs) ≡ length xs - k = length-drop k xs in
        let split = sym (take-append-drop k xs) in
        let start : wrap (length xs) (length (take k xs)) ≡ k =
          ap (wrap (length xs)) n ∙ rw (lt→leb_false (length xs) k h) refl in
        let same : 0 + length (take k xs) ≡ length (take k xs) = omega arith in
        let all : length (take k xs) + length (drop k xs) ≡ length xs = omega arith in
        let around : wrap (length xs) (length (take k xs) + length (drop k xs))
            ≡ wrap (length xs) 0 =
          ap (wrap (length xs)) all
          ∙ rw (le→leb (length xs) (length xs) (omega arith)) (sym (wrap-zero (length xs))) in
        let second = serve_run [] (take k xs) (drop k xs) 0 [] (at_index k) split (
          ap (λ (j : ℕ). serve 0 (at_index (wrap (length xs) j))) same
          ∙ ap (λ (j : ℕ). serve 0 (at_index j)) start) in
        let count : length xs ≡ length (drop k xs) + (length (take k xs) + 0) = omega arith in
        ap (λ (j : ℕ). serve (length xs) (at_index j)) (sym start)
        ∙ ap (λ (j : ℕ). serve j (at_index (wrap (length xs) (length (take k xs))))) count
        ∙ serve_run (take k xs) (drop k xs) [] (length (take k xs) + 0) _ (at_index k)
            (split ∙ ap (λ (ys : List A). take k xs ++ ys) (sym (append-nil (drop k xs))))
            (ap (λ (j : ℕ). serve (length (take k xs) + 0) (at_index j)) around ∙ second)

  -- On a pool that runs with at least one thread and with `next_` an index of a loop: as many
  -- calls of `getNextLoop` as there are loops return each loop once, in the order of the vector
  -- from `next_` on and round to it, and leave the pool as it was.
  pub serve-cycle :
      (p : EventLoopThreadPool A)
      → p.started ≡ true
      → p.next < length p.loops
      → serve (length p.loops) p ≡ ok (map some (drop p.next p.loops ++ take p.next p.loops), p)
  serve-cycle p e h =
      let same : record p { started = true; next = p.next } ≡ p =
        λ i. record p { started = sym e i } in
      let text : map some (drop p.next p.loops) ++ (map some (take p.next p.loops) ++ [])
          ≡ map some (drop p.next p.loops ++ take p.next p.loops) =
        ap (λ (zs : List (Option A)). map some (drop p.next p.loops) ++ zs) (append-nil _)
        ∙ sym (map-append some (drop p.next p.loops) (take p.next p.loops)) in
      ap (serve (length p.loops)) (sym same) ∙ cycle p p.next h ∙ (λ i. ok (text i, same i))
