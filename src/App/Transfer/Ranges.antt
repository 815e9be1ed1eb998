-- ===== src/App/Transfer/Ranges.antt =====
-- The bounds of a range.
use cloud_storage.Common.{
  ℕ, ◌<◌, Bool, true, false, ◌≡◌, refl, arith, Bytes, some, none, length, leb, if◌then◌else◌,
  size_sub, ◌==◌,
}
use cloud_storage.App.Platform.{Res, returns, throws, undefined}
use cloud_storage.App.Transfer.{
  Span, whole, partial, unsatisfiable, clip_range, with_start, with_end, to_number, parse_range,
  find_range, parsed,
}

-- A part begins and ends inside of the file; without a range it is the file from the first byte
-- to the last one.
abbrev pub InFile : ℕ → Span → Type 0
InFile size (whole start end) = (start ≡ 0) × (end ≡ size_sub size 1)
InFile size (partial start end) = (start < size) × (end < size)
InFile size unsatisfiable = Unit

abbrev pub AnswerInFile : ℕ → Res Span → Type 0
AnswerInFile size (returns span) = InFile size span
AnswerInFile size (throws what) = Unit
AnswerInFile size undefined = Unit

either_span :
    (size : ℕ) (x y : Span) (t : Bool)
    → (t ≡ true → InFile size x)
    → (t ≡ false → InFile size y)
    → InFile size (if t then x else y)
either_span size x y true f g = f refl
either_span size x y false f g = g refl

either_answer :
    (size : ℕ) (x y : Res Span) (t : Bool)
    → AnswerInFile size x
    → AnswerInFile size y
    → AnswerInFile size (if t then x else y)
either_answer size x y true f g = f
either_answer size x y false f g = g

clipped_end :
    (size start end : ℕ) → start < size → (if leb size end then size_sub size 1 else end) < size
clipped_end size start end h = ground arith

clip_range-InFile : (size start end : ℕ) → InFile size (clip_range size start end)
unfolding clip_range
clip_range-InFile size start end =
    either_span size _ _ (leb size start) (λ h. tt)
      (λ h. let inside : start < size = ground arith in (inside, clipped_end size start end inside))

with_end-InFile : (size start : ℕ) (end : Res ℕ) → AnswerInFile size (with_end size start end)
with_end-InFile size start (returns end) = clip_range-InFile size start end
with_end-InFile size start (throws what) = tt
with_end-InFile size start undefined = tt

with_start-InFile :
    (size : ℕ) (second : Bytes) (start : Res ℕ) → AnswerInFile size (with_start size second start)
with_start-InFile size second (returns start) =
    either_answer size _ _ (length second == 0) (clip_range-InFile size start (size_sub size 1))
      (with_end-InFile size start (to_number second))
with_start-InFile size second (throws what) = tt
with_start-InFile size second undefined = tt

-- Whatever the header Range says, the span of an answer that is partial begins and ends inside of
-- the file, and an answer that is not about a part spans the file from its first byte to its last
-- (to 2 ^ 64 - 1 when the file is empty).
pub parse_range-InFile :
    (range_header : Bytes) (size : ℕ) → AnswerInFile size (parse_range range_header size)
unfolding parse_range
parse_range-InFile range_header size =
    elim (find_range range_header) as (λ r. AnswerInFile size (parsed size r)) [
      | none ↦ (refl, refl)
      | some (first, second) ↦ with_start-InFile size second (to_number first)
    ]
