-- ===== src/LinkedBuffer/Contents.antt =====
-- The text that the blocks hold.
use cloud_storage.Common.{
  ℕ, ◌+◌, ◌≤◌, ◌<◌, Bool-cases, inl, inr, List, [], ◌∷◌, ◌++◌, Bytes, length, take, drop, replicate,
  copy_to, copy_to_lem, ◌==◌, ◌≡◌, refl, sym, ap, subst, ◌∙◌, arith, append_assoc, append-nil,
  length-append, length-take, length-drop, length-replicate, take-append, drop-append,
  take-append-drop,
}
use cloud_storage.LinkedBuffer.{
  Block, new_block, window, write_block, write_len, fitting, write_back,
}

-- The three parts of a block.
pub record Parts (b : Block) (text : Bytes) : Type 0 where
  pub front : Bytes
  pub back : Bytes
  pub parts : b.data_bytes ≡ front ++ (text ++ back)
  pub front_size : length front ≡ b.prependable
  pub text_size : length text ≡ b.readable
  pub back_size : length back ≡ b.writable
  pub size : b.prependable + b.readable + b.writable ≡ b.capacity

-- The blocks hold a text, one piece after the other.
pub data Hold : List Block → Bytes → Type 0 where
  no_blocks : Hold [] []
  block :
      {b : Block} {bs : List Block} {text more : Bytes}
      → Parts b text
      → Hold bs more
      → Hold (b ∷ bs) (text ++ more)

pub window-Parts : (b : Block) (text : Bytes) → Parts b text → window b ≡ text
unfolding window
window-Parts b text p =
    ap (λ n. take b.readable (drop n b.data_bytes)) (sym p.front_size)
    ∙ ap (λ d. take b.readable (drop (length p.front) d)) p.parts
    ∙ ap (take b.readable) (drop-append p.front (text ++ p.back))
    ∙ ap (λ n. take n (text ++ p.back)) (sym p.text_size)
    ∙ take-append text p.back

new_block-Parts : (size : ℕ) → 8 ≤ size → Parts (new_block size) []
unfolding new_block
new_block-Parts size h =
    let zeros : Bytes = replicate size 0 in
    let full : length zeros ≡ size = length-replicate size 0 in
    record {
      front = take 8 zeros;
      back = drop 8 zeros;
      parts = sym (take-append-drop 8 zeros);
      front_size = omega (arith, length-take 8 zeros, full);
      text_size = refl;
      back_size = omega (arith, length-drop 8 zeros, full);
      size = omega arith;
    }

write_block-Parts :
    (b : Block) (text bytes : Bytes)
    → Parts b text
    → length bytes ≤ b.writable
    → Parts (write_block b bytes) (text ++ bytes)
unfolding write_block
write_block-Parts b text bytes p h = record {
  front = p.front;
  back = drop (length bytes) p.back;
  parts =
      ap (λ n. copy_to n bytes b.data_bytes) at
      ∙ ap (copy_to (length (p.front ++ text)) bytes)
          (p.parts ∙ sym (append_assoc p.front text p.back))
      ∙ copy_to_lem (p.front ++ text) bytes p.back (omega (arith, h, p.back_size))
      ∙ append_assoc p.front text (bytes ++ drop (length bytes) p.back)
      ∙ ap (λ (l : Bytes). p.front ++ l)
          (sym (append_assoc text bytes (drop (length bytes) p.back)));
  front_size = p.front_size;
  text_size = omega (arith, length-append text bytes, p.text_size);
  back_size = omega (arith, length-drop (length bytes) p.back, p.back_size);
  size = omega (arith, p.size, h);
}
  where
    at : b.prependable + b.readable ≡ length (p.front ++ text)
    at = omega (arith, length-append p.front text, p.front_size, p.text_size)

-- A block that has taken what it has room for.
filled-Parts :
    (b : Block) (text bytes : Bytes)
    → Parts b text
    → Parts
        (write_block b (take (write_len b bytes) bytes))
        (text ++ take (write_len b bytes) bytes)
filled-Parts b text bytes p =
    write_block-Parts b text (take (write_len b bytes) bytes) p
      (omega (arith, length-take (write_len b bytes) bytes))

-- Some bytes are taken, and no more than there are.
abbrev Takes : Bytes → ℕ → Type 0
Takes bytes n = (0 < n) × (n ≤ length bytes)

new_block-Takes :
    (bytes : Bytes) → 0 < length bytes → Takes bytes (write_len (new_block (fitting bytes)) bytes)
unfolding new_block
new_block-Takes bytes h = (ground arith, ground arith)

-- The blocks and the number of bytes that a round leads to.
pub record Wrote (text bytes : Bytes) (out : List Block × ℕ) : Type 0 where
  pub hold : Hold out.0 (text ++ take out.1 bytes)
  pub takes : Takes bytes out.1

Hold-as : {bs : List Block} (t t' : Bytes) → t ≡ t' → Hold bs t → Hold bs t'
Hold-as {bs} t t' e h = subst (Hold bs) e h

pub write_back-Wrote :
    (blocks : List Block) (text bytes : Bytes)
    → Hold blocks text
    → 0 < length bytes
    → Wrote text bytes (write_back blocks bytes)
unfolding write_back
write_back-Wrote [] text bytes no_blocks h =
    let n = new_block (fitting bytes) in
    record {
      hold = Hold-as _ _ (append-nil _) (
          block (filled-Parts n [] bytes (new_block-Parts (fitting bytes) (omega arith)))
            no_blocks);
      takes = new_block-Takes bytes h;
    }
write_back-Wrote (b ∷ []) text bytes (block {text = t} p no_blocks) h =
    elim (Bool-cases (b.writable == 0)) [
      | inl e ↦ rw (write_back, e) spare
      | inr e ↦ rw (write_back, e) (here (ground (arith, e)))
    ]
  where
    n : Block
    n = new_block (fitting bytes)

    spare :
        Wrote
          (t ++ [])
          bytes
          (b ∷ write_block n (take (write_len n bytes) bytes) ∷ [], write_len n bytes)
    spare = record {
      hold =
          Hold-as _ _
            (ap (λ (l : Bytes). t ++ l) (append-nil (take (write_len n bytes) bytes))
              ∙ ap (λ (l : Bytes). l ++ take (write_len n bytes) bytes) (sym (append-nil t)))
            (block p (
              block (filled-Parts n [] bytes (new_block-Parts (fitting bytes) (omega arith)))
                no_blocks));
      takes = new_block-Takes bytes h;
    }

    here :
        0 < b.writable
        → Wrote
            (t ++ [])
            bytes
            (write_block b (take (write_len b bytes) bytes) ∷ [], write_len b bytes)
    here r = record {
      hold =
          Hold-as _ _
            (append-nil _
              ∙ ap (λ (l : Bytes). l ++ take (write_len b bytes) bytes) (sym (append-nil t)))
            (block (filled-Parts b t bytes p) no_blocks);
      takes = (ground arith, ground arith);
    }
write_back-Wrote (b ∷ c ∷ bs) text bytes (block {text = t} {more = m} p q) h =
    let w = write_back-Wrote (c ∷ bs) m bytes q h in
    record {
      hold =
          Hold-as _ _ (sym (append_assoc t m (take (write_back (c ∷ bs) bytes).1 bytes)))
            (block p w.hold);
      takes = w.takes;
    }
