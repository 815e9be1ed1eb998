-- ===== src/LinkedBuffer/Shrinking.antt =====
-- `shrink` keeps the text.
use cloud_storage.Common.{
  ℕ, ◌+◌, ◌-◌, true, Bool-cases, inl, inr, List, [], ◌∷◌, ◌++◌, Bytes, length, take, drop,
  replicate, copy_to, copy_to_lem, ltb, ◌==◌, ◌≡◌, refl, sym, ap, subst, ◌∙◌, arith,
  take-append-drop, length-take, length-drop, length-replicate,
}
use cloud_storage.LinkedBuffer.{
  Block, LinkedBuffer, new_memory, window, block_shrink, shrink_blocks, reserve_back, shrink,
  block_writable,
}
use cloud_storage.LinkedBuffer.Contents.{Hold, no_blocks, block, Parts, window-Parts}
use cloud_storage.LinkedBuffer.Loops.{Holding}

-- New memory with the same readable bytes.
new_memory-Parts :
    (b : Block) (text : Bytes)
    → window b ≡ text
    → length text ≡ b.readable
    → b.prependable + b.readable + b.writable ≡ b.capacity
    → Parts (new_memory b) text
new_memory-Parts b text w e s =
    let zeros : Bytes = replicate b.capacity 0 in
    let full : length zeros ≡ b.capacity = length-replicate b.capacity 0 in
    let room = drop b.prependable zeros in
    let start : length (take b.prependable zeros) ≡ b.prependable =
      omega (arith, length-take b.prependable zeros, full, s) in
    let left : length room ≡ b.readable + b.writable =
      omega (arith, length-drop b.prependable zeros, full, s) in
    record {
      front = take b.prependable zeros;
      back = drop (length text) room;
      parts =
          ap (λ (t : Bytes). copy_to b.prependable t zeros) w
          ∙ ap (λ n. copy_to n text zeros) (sym start)
          ∙ ap (copy_to (length (take b.prependable zeros)) text)
              (sym (take-append-drop b.prependable zeros))
          ∙ copy_to_lem (take b.prependable zeros) text room (omega (arith, left, e));
      front_size = start;
      text_size = e;
      back_size = omega (arith, length-drop (length text) room, left, e);
      size = s;
    }

block_shrink-Parts : (b : Block) (text : Bytes) → Parts b text → Parts (block_shrink b) text
unfolding block_shrink
block_shrink-Parts b text p =
    let cap = b.prependable + b.readable + 1 in
    let whole : (b.prependable + b.readable + b.writable == b.capacity) ≡ true =
      ground (arith, p.size) in
    rw (block_shrink, whole)
      (new_memory-Parts (record b { capacity = cap; writable = cap - b.prependable - b.readable })
        text (window-Parts b text p) p.text_size (omega arith))

length-zero : (xs : Bytes) → length xs ≡ 0 → xs ≡ []
length-zero [] e = refl
length-zero (x ∷ xs) e = absurd (omega (arith, e))

shrink_blocks-Hold : (bs : List Block) (text : Bytes) → Hold bs text → Hold (shrink_blocks bs) text
unfolding shrink_blocks
shrink_blocks-Hold [] text no_blocks = no_blocks
shrink_blocks-Hold (b ∷ bs) text (block {text = t} {more = m} p q) =
    elim (Bool-cases (b.readable == 0)) [
      | inl gone ↦
          rw (shrink_blocks, gone)
            (subst (λ (l : Bytes). Hold (shrink_blocks bs) (l ++ m))
              (sym (length-zero t (ground (arith, p.text_size)))) (shrink_blocks-Hold bs m q))
      | inr kept ↦
          rw (shrink_blocks, kept) (block (block_shrink-Parts b t p) (shrink_blocks-Hold bs m q))
    ]

reserve_back-Hold :
    (need : ℕ) (bs : List Block) (text : Bytes) → Hold bs text → Hold (reserve_back need bs) text
unfolding reserve_back
reserve_back-Hold need [] text q = q
reserve_back-Hold need (b ∷ []) text (block {text = t} p q) =
    block
      (new_memory-Parts (record b { writable = b.writable + need; capacity = b.capacity + need }) t
        (window-Parts b t p) p.text_size (omega (arith, p.size)))
      q
reserve_back-Hold need (b ∷ c ∷ bs) text (block {more = m} p q) =
    block p (reserve_back-Hold need (c ∷ bs) m q)

pub shrink-Holding :
    (b : LinkedBuffer) (reserve : ℕ) (text : Bytes)
    → Holding b text
    → Holding (shrink b reserve) text
unfolding shrink
shrink-Holding b reserve text s =
    let bs = shrink_blocks b.blocks in
    let h : Hold bs text = shrink_blocks-Hold b.blocks text s.hold in
    elim (Bool-cases (ltb (block_writable bs) reserve)) [
      | inl more ↦
          rw (shrink, more)
            (record {
              hold = reserve_back-Hold (reserve - block_writable bs) bs text h;
              total = s.total;
            })
      | inr enough ↦ rw (shrink, enough) (record { hold = h; total = s.total })
    ]
