-- ===== src/App/Transfer/Chunks.antt =====
-- A download from its first chunk to its last.
use cloud_storage.Common.{
  ℕ, zero, suc, ◌+◌, ◌-◌, ◌*◌, ◌%◌, ◌^◌, ◌≤◌, ◌<◌, Bool, true, false, Bool-cases, inl, inr, ◌≡◌,
  refl, sym, ap, ◌∙◌, arith, [], ◌∷◌, ◌++◌, Option, none, some, Bytes, length, take, drop, min,
  ◌==◌, if◌then◌else◌, size_sub, size_sub_le, append-nil, length-take, take-append-drop,
  length-drop, drop-all,
}
use cloud_storage.App.Effects.{FileDownContext}
use cloud_storage.App.Transfer.{
  chunk_size, read_bytes, read_next_chunk, on_written, Order, send, shutdown, order_of,
}

-- The stream stands where the counter does, in a file of the size that was read.
pub record IsOpen (c : FileDownContext) : Type 0 where
  pub not_complete : c.is_complete ≡ false
  pub same_position : c.position ≡ c.current_position
  pub in_file : c.current_position ≤ c.file_size
  pub whole_file : length c.content ≡ c.file_size
  pub file_size_bound : c.file_size < 2 ^ 64

if_false : {A : Type 0} (x y : A) {t : Bool} → t ≡ false → (if t then x else y) ≡ y
if_false x y e = ap (λ b. if b then x else y) e

if_true : {A : Type 0} (x y : A) {t : Bool} → t ≡ true → (if t then x else y) ≡ x
if_true x y e = ap (λ b. if b then x else y) e

abbrev next_size : FileDownContext → ℕ
next_size c = min chunk_size (size_sub c.file_size c.current_position)

abbrev moved : FileDownContext → ℕ → FileDownContext
moved c k = record c {
  position = c.position + k;
  current_position = (c.current_position + k) % 2 ^ 64;
}

read-more :
    (c : FileDownContext)
    → c.is_complete ≡ false
    → (next_size c == 0) ≡ false
    → read_next_chunk c ≡ (some (read_bytes c (next_size c)), moved c (next_size c))
unfolding read_next_chunk
read-more c e f = if_false _ _ e ∙ if_false _ _ f

read-none :
    (c : FileDownContext)
    → c.is_complete ≡ false
    → (next_size c == 0) ≡ true
    → read_next_chunk c ≡ (none, record c { is_complete = true })
unfolding read_next_chunk
read-none c e f = if_false _ _ e ∙ if_true _ _ f

-- No byte is missing in the file.
read_bytes_lem :
    (c : FileDownContext) (k : ℕ)
    → c.position + k ≤ length c.content
    → read_bytes c k ≡ take k (drop c.position c.content)
read_bytes_lem c k h =
    let e : k - length (take k (drop c.position c.content)) ≡ 0 =
      omega (arith, length-take k (drop c.position c.content), length-drop c.position c.content) in
    rw e (append-nil _)

-- The file as far as it is sent, when the order is carried out and `rest` follows.
abbrev give : Order → Option Bytes → Option Bytes
give shutdown rest = some []
give (send chunk) none = none
give (send chunk) (some more) = some (chunk ++ more)

-- What the connection is given while it writes, with `rounds` writes completed at most: none where
-- it has not been shut down by then.
unfoldable pub written : ℕ → FileDownContext → Option Bytes
written zero c = none
written (suc rounds) c = give (on_written c).0 (written rounds (on_written c).1)

next_size_lem :
    (c : FileDownContext)
    → IsOpen c
    → next_size c ≡ min chunk_size (c.file_size - c.current_position)
next_size_lem c o = ap (min chunk_size) (size_sub_le c.file_size c.current_position o.in_file)

moved-IsOpen :
    (c : FileDownContext) (k : ℕ)
    → IsOpen c
    → k ≤ c.file_size - c.current_position
    → IsOpen (moved c k)
moved-IsOpen c k o h =
    let e : (c.current_position + k) % 2 ^ 64 ≡ c.current_position + k =
      omega (arith, o.in_file, o.file_size_bound) in
    record {
      not_complete = o.not_complete;
      same_position = omega (arith, e, o.same_position);
      in_file = omega (arith, e, o.in_file);
      whole_file = o.whole_file;
      file_size_bound = o.file_size_bound;
    }

drop-drop : (k m : ℕ) (xs : Bytes) → drop k (drop m xs) ≡ drop (m + k) xs
drop-drop k zero xs = let e : 0 + k ≡ k = omega arith in rw e refl
drop-drop k (suc m) [] = drop-all [] k (omega arith) ∙ sym (drop-all [] (suc m + k) (omega arith))
drop-drop k (suc m) (x ∷ xs) =
    let e : suc m + k ≡ suc (m + k) = omega arith in rw e (drop-drop k m xs)

-- One write more in front of those that send what is behind its chunk.
written-step :
    (n : ℕ) (c : FileDownContext)
    → IsOpen c
    → (next_size c == 0) ≡ false
    → written n (moved c (next_size c)) ≡ some (drop (c.position + next_size c) c.content)
    → written (suc n) c ≡ some (drop c.position c.content)
unfolding written on_written
written-step n c o e ih =
    let k = next_size c in
    let inside : c.position + k ≤ length c.content =
      omega (arith, next_size_lem c o, o.whole_file, o.same_position, o.in_file) in
    ap (λ p. give (order_of p).0 (written n (order_of p).1)) (read-more c o.not_complete e)
    ∙ ap (give (send (read_bytes c k))) ih
    ∙ ap some (
        ap (λ (x : Bytes). x ++ drop (c.position + k) c.content) (read_bytes_lem c k inside)
        ∙ ap (λ (x : Bytes). take k (drop c.position c.content) ++ x)
            (sym (drop-drop k c.position c.content))
        ∙ take-append-drop k (drop c.position c.content))

written-end :
    (n : ℕ) (c : FileDownContext)
    → IsOpen c
    → (next_size c == 0) ≡ true
    → written (suc n) c ≡ some (drop c.position c.content)
unfolding written on_written
written-end n c o e =
    let empty : length c.content ≤ c.position =
      ground (arith, next_size_lem c o, o.whole_file, o.same_position, e) in
    ap (λ p. give (order_of p).0 (written n (order_of p).1)) (read-none c o.not_complete e)
    ∙ ap some (sym (drop-all c.content c.position empty))

-- The completed writes of a download that stands inside of its file send the rest of the file
-- from that position on, and then the connection is shut down; n + 1 writes are enough for n
-- chunks of 1 MB.
pub written_lem :
    (n : ℕ) (c : FileDownContext)
    → IsOpen c
    → c.file_size - c.current_position ≤ n * chunk_size
    → written (suc n) c ≡ some (drop c.position c.content)
written_lem zero c o h = written-end zero c o (ground (arith, next_size_lem c o))
written_lem (suc n) c o h = elim (Bool-cases (next_size c == 0)) [
  | inl e ↦ written-end (suc n) c o e
  | inr e ↦
      let k = next_size c in
      let small : k ≤ c.file_size - c.current_position = omega (arith, next_size_lem c o) in
      let o' = moved-IsOpen c k o small in
      let left : (moved c k).file_size - (moved c k).current_position ≤ n * chunk_size =
        omega (arith, next_size_lem c o, o'.same_position, o.same_position) in
      written-step (suc n) c o e (written_lem n (moved c k) o' left)
]
