-- ===== src/LinkedBuffer/Loops.antt =====
-- What the loops of `append` and `retrieveAsString` leave in the blocks.
use cloud_storage.Common.{
  ℕ, zero, suc, ◌+◌, ◌-◌, ◌≤◌, ◌<◌, Bool-cases, inl, inr, List, [], ◌∷◌, ◌++◌, Bytes, length, take,
  drop, leb, ok, ◌≡◌, refl, sym, ap, subst, ◌∙◌, arith, append_assoc, append-nil, length-append,
  length-take, length-drop, take-append-drop, take-append_add, drop-append_add,
}
use cloud_storage.LinkedBuffer.{
  window, Block, LinkedBuffer, write_back, append_loop, read_blocks, retrieve_blocks, skip_bytes,
}
use cloud_storage.LinkedBuffer.Contents.{
  Hold, no_blocks, block, Parts, write_back-Wrote, window-Parts,
}

-- A buffer that holds a text, with its counter.
pub record Holding (b : LinkedBuffer) (text : Bytes) : Type 0 where
  pub hold : Hold b.blocks text
  pub total : b.total_readable ≡ length text

pub append_loop-Holding :
    (rounds : ℕ) (b : LinkedBuffer) (text bytes : Bytes)
    → length bytes ≤ rounds
    → Holding b text
    → (b' : LinkedBuffer) × (append_loop rounds b bytes ≡ ok b') × Holding b' (text ++ bytes)
unfolding append_loop
append_loop-Holding rounds b text [] h s = (b, refl, subst (Holding b) (sym (append-nil text)) s)
append_loop-Holding zero b text (x ∷ bytes) h s = absurd (omega (arith, h))
append_loop-Holding (suc rounds) b text (x ∷ bytes) h s =
    let w = write_back-Wrote b.blocks text (x ∷ bytes) s.hold (omega arith) in
    let n = (write_back b.blocks (x ∷ bytes)).1 in
    let next : LinkedBuffer = record {
      blocks = (write_back b.blocks (x ∷ bytes)).0;
      total_readable = b.total_readable + n;
    } in
    let out =
      append_loop-Holding rounds next (text ++ take n (x ∷ bytes)) (drop n (x ∷ bytes))
        (omega (arith, length-drop n (x ∷ bytes), h, w.takes))
        (record {
          hold = w.hold;
          total = omega (
            arith,
            length-append text (take n (x ∷ bytes)),
            length-take n (x ∷ bytes),
            s.total,
            w.takes,
          );
        }) in
    (
      out.0,
      out.1,
      subst (Holding out.0)
          (append_assoc text (take n (x ∷ bytes)) (drop n (x ∷ bytes))
            ∙ ap (λ (l : Bytes). text ++ l) (take-append-drop n (x ∷ bytes)))
          out.2,
    )

take-in : (n : ℕ) (xs ys : Bytes) → n ≤ length xs → take n (xs ++ ys) ≡ take n xs
take-in zero xs ys h = refl
take-in (suc n) [] ys h = absurd (omega arith)
take-in (suc n) (x ∷ xs) ys h = ap (◌∷◌ x) (take-in n xs ys (omega arith))

drop-in : (n : ℕ) (xs ys : Bytes) → n ≤ length xs → drop n (xs ++ ys) ≡ drop n xs ++ ys
drop-in zero xs ys h = refl
drop-in (suc n) [] ys h = absurd (omega arith)
drop-in (suc n) (x ∷ xs) ys h = drop-in n xs ys (omega arith)

-- A block from which the first bytes are taken.
taken-Parts :
    (b : Block) (text : Bytes) (n : ℕ)
    → Parts b text
    → n ≤ length text
    → Parts (skip_bytes b n) (drop n text)
taken-Parts b text n p h = record {
  front = p.front ++ take n text;
  back = p.back;
  parts =
      p.parts
      ∙ ap (λ (l : Bytes). p.front ++ (l ++ p.back)) (sym (take-append-drop n text))
      ∙ ap (λ (l : Bytes). p.front ++ l) (append_assoc (take n text) (drop n text) p.back)
      ∙ sym (append_assoc p.front (take n text) (drop n text ++ p.back));
  front_size = omega (arith, length-append p.front (take n text), length-take n text, p.front_size);
  text_size = omega (arith, length-drop n text, p.text_size);
  back_size = p.back_size;
  size = omega (arith, p.size, p.text_size, h);
}

-- The first bytes, and a buffer that holds the others.
pub record Reads (text : Bytes) (n : ℕ) (out : Bytes × LinkedBuffer) : Type 0 where
  pub first : out.0 ≡ take n text
  pub rest : Holding out.1 (drop n text)

-- All of the first block, and some bytes of the others.
whole-Reads :
    (n : ℕ) (b : Block) (t m : Bytes) (out : Bytes × LinkedBuffer)
    → Parts b t
    → b.readable ≤ n
    → Reads m (n - b.readable) out
    → Reads (t ++ m) n (window b ++ out.0, out.1)
whole-Reads n b t m out p r k =
    let e : length t + (n - b.readable) ≡ n = omega (arith, p.text_size) in
    record {
      first =
          ap (λ (l : Bytes). l ++ out.0) (window-Parts b t p)
          ∙ ap (λ (l : Bytes). t ++ l) k.first
          ∙ sym (take-append_add t m (n - b.readable))
          ∙ ap (λ i. take i (t ++ m)) e;
      rest =
          subst (Holding out.1)
            (sym (drop-append_add t m (n - b.readable)) ∙ ap (λ i. drop i (t ++ m)) e) k.rest;
    }

-- Some bytes of the first block.
partial-Reads :
    (n : ℕ) (b : Block) (bs : List Block) (total : ℕ) (t m : Bytes)
    → Parts b t
    → Hold bs m
    → total ≡ length (t ++ m)
    → n < b.readable
    → Reads
        (t ++ m)
        n
        (take n (window b), record { blocks = skip_bytes b n ∷ bs; total_readable = total - n })
partial-Reads n b bs total t m p q e r =
    let le : n ≤ length t = omega (arith, p.text_size) in
    record {
      first = ap (take n) (window-Parts b t p) ∙ sym (take-in n t m le);
      rest = record {
        hold = subst (Hold _) (sym (drop-in n t m le)) (block (taken-Parts b t n p le) q);
        total = omega (arith, e, length-drop n (t ++ m));
      };
    }

pub read_blocks-Reads :
    (n : ℕ) (blocks : List Block) (total : ℕ) (text : Bytes)
    → Hold blocks text
    → total ≡ length text
    → n ≤ length text
    → Reads text n (read_blocks n blocks total)
unfolding read_blocks
read_blocks-Reads zero blocks total text q e h = record {
  first = refl;
  rest = record { hold = q; total = e };
}
read_blocks-Reads (suc n) [] total [] no_blocks e h = absurd (omega arith)
read_blocks-Reads (suc n) [] total (_ ∷ _) q e h = elim q [ ]
read_blocks-Reads (suc n) (b ∷ bs) total text (block {text = t} {more = m} p q) e h =
    elim (Bool-cases (leb b.readable (suc n))) [
      | inl all ↦
          rw (read_blocks, all)
            (whole-Reads (suc n) b t m (read_blocks (suc n - b.readable) bs (total - b.readable)) p
              (ground arith)
              (read_blocks-Reads (suc n - b.readable) bs (total - b.readable) m q
                (omega (arith, e, length-append t m, p.text_size))
                (omega (arith, length-append t m, p.text_size))))
      | inr less ↦
          rw (read_blocks, less) (partial-Reads (suc n) b bs total t m p q e (ground arith))
    ]

-- `retrieve` goes through the blocks as `retrieveAsString` does.
pub retrieve_blocks_lem :
    (n : ℕ) (blocks : List Block) (total : ℕ)
    → retrieve_blocks n blocks total ≡ (read_blocks n blocks total).1
unfolding read_blocks retrieve_blocks
retrieve_blocks_lem zero blocks total = refl
retrieve_blocks_lem (suc n) [] total = refl
retrieve_blocks_lem (suc n) (b ∷ bs) total = elim (Bool-cases (leb b.readable (suc n))) [
  | inl all ↦
      rw (read_blocks, retrieve_blocks, all)
        (retrieve_blocks_lem (suc n - b.readable) bs (total - b.readable))
  | inr less ↦ rw (read_blocks, retrieve_blocks, less) refl
]
