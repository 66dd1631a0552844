-- ===== src/Translation/Pieces.antt =====
-- project/driver/src/TranslationWorkers.cpp: a long value delivered in pieces to a client's buffer,
-- as the repeated calls of one worker with one DataStreamInfo see it.
pub mod Long
pub mod Outside
use ez_rets.Base.{
  ℕ, zero, suc, ◌+◌, ◌-◌, ◌%◌, ◌^◌, ◌≤◌, ◌<◌, ◌≡◌, refl, ap, ap₂, sym, ◌∙◌, ◌≢◌, ◌⊎◌, inl, inr,
  Bool, true, false, not, ◌&&◌, List, [], ◌∷◌, ◌++◌, Option, none, some, arith, ◌==◌, ltb, leb,
  if◌then◌else◌, Text, ℤ, pos, negsuc, pos_part, length, take, drop, min, is_empty, All,
  length-take, length-drop, length-append, drop-drop, drop-nil, take-nil, take-min, take-take,
  Bool-cases,
}
use ez_rets.Memory.{
  Memory, write_bytes, set_word, read_bytes, poke, peek, peek-poke, peek-poke_part, peek-ext,
  poke_outside, bytes-write_bytes, SameOutside,
}
use ez_rets.Odbc.{sqllen_of_size, size_of_sqllen, size_of_int, size_sub, size_mod}
use ez_rets.Stream.{DataStreamInfo, FileStatus, has_more_data, no_more_data}
use ez_rets.Translation.{Outcome, set_result_size}
use ez_rets.Translation.Long.{translate_binary, translate_character, advance, text_room}
use ez_rets.Translation.Workers.{returns}
use ez_rets.Utils.{string_copy}

take-split {ℓ} :
    {A : Type ℓ} (a b : ℕ) (xs : List A) → take a xs ++ take b (drop a xs) ≡ take (a + b) xs
take-split zero b xs = ap (λ k. take k xs) (omega arith)
take-split (suc a) b [] = take-nil b ∙ sym (take-nil (suc a + b))
take-split (suc a) b (x ∷ xs) = ap (◌∷◌ x) (take-split a b xs) ∙ ap (λ k. take k (x ∷ xs)) shift
  where
    shift : suc (a + b) ≡ suc a + b
    shift = omega arith

drop-min {ℓ} : {A : Type ℓ} (n : ℕ) (xs : List A) → drop (min n (length xs)) xs ≡ drop n xs
drop-min zero [] = refl
drop-min zero (x ∷ xs) = ap (λ k. drop k (x ∷ xs)) none_left
  where
    none_left : min 0 (suc (length xs)) ≡ 0
    none_left = omega arith
drop-min (suc n) [] = drop-nil (min (suc n) 0)
drop-min (suc n) (x ∷ xs) = ap (λ k. drop k (x ∷ xs)) shift ∙ drop-min n xs
  where
    shift : min (suc n) (suc (length xs)) ≡ suc (min n (length xs))
    shift = omega arith

-- A worker for one column's text, and how many bytes of data a buffer of the given length takes.
abbrev pub PieceWorker : Type 0
PieceWorker = ℤ → Memory → Option DataStreamInfo → Outcome

abbrev stream_of : Option DataStreamInfo → DataStreamInfo → DataStreamInfo
stream_of none s = s
stream_of (some s') s = s'

-- The data that buffers of these lengths take together.
abbrev pub total_room : (ℕ → ℕ) → List ℕ → ℕ
total_room room [] = 0
total_room room (n ∷ ns) = room n + total_room room ns

module _ (worker : PieceWorker) (room : ℕ → ℕ) (text : Text) (target result_size : ℕ) where
  -- A client that asks for a piece with each of these buffer lengths in turn, and takes from its
  -- buffer as many bytes as the length indicator says are there; and the stream after it.
  unfoldable pub receive : List ℕ → DataStreamInfo → Memory → Text × DataStreamInfo
  unfolding read_bytes
  receive [] s m = ([], s)
  receive (n ∷ ns) s m =
      let r = worker (pos n) m (some s) in
      let rest = receive ns (stream_of r.stream s) r.memory in
      (
        read_bytes r.memory target (min (room n) (pos_part (r.memory.words result_size))) ++ rest.0,
        rest.1,
      )

  -- What one call of the worker does.
  pub record Delivers (n : ℕ) (s : DataStreamInfo) (m : Memory) : Type 0 where
    pub moved :
        (worker (pos n) m (some s)).stream
        ≡ some (advance text s (min (room n) (length text - s.offset)))
    pub read :
        read_bytes (worker (pos n) m (some s)).memory target (min (room n) (length text - s.offset))
        ≡ take (room n) (drop s.offset text)
    pub indicated :
        (worker (pos n) m (some s)).memory.words result_size ≡ pos (length text - s.offset)

  -- All of them in a row.
  pub receive-Delivers :
      (Fits : ℕ → Type 0)
      → length text < 2 ^ 31
      → ((n : ℕ) (s : DataStreamInfo) (m : Memory)
          → Fits n
          → s.offset ≤ length text
          → Delivers n s m)
      → (ns : List ℕ) (s : DataStreamInfo) (m : Memory) → All Fits ns
      → s.offset ≤ length text
      → ((receive ns s m).0 ≡ take (total_room room ns) (drop s.offset text))
        × ((receive ns s m).1.offset ≡ min (length text) (s.offset + total_room room ns))
  unfolding receive
  receive-Delivers Fits small one [] s m fits le = (refl, omega arith)
  receive-Delivers Fits small one (n ∷ ns) s m (fit, fits) le =
      let d = one n s m fit le in
      let left : ℕ = length text - s.offset in
      let m' = (worker (pos n) m (some s)).memory in
      let s' = advance text s (min (room n) left) in
      let at : s'.offset ≡ s.offset + min (room n) left = omega arith in
      let ih = receive-Delivers Fits small one ns s' m' fits (omega (arith, at)) in
      rw (d.moved, d.indicated, d.read)
        (
          ap (λ t. take (room n) (drop s.offset text) ++ t)
                (ih.0
                  ∙ ap (take (total_room room ns)) (
                      ap (λ k. drop k text) at
                      ∙ sym (drop-drop s.offset (min (room n) left) text)
                      ∙ ap (λ k. drop (min (room n) k) (drop s.offset text))
                          (sym (length-drop s.offset text))
                      ∙ drop-min (room n) (drop s.offset text)))
              ∙ take-split (room n) (total_room room ns) (drop s.offset text),
          ih.1 ∙ omega (arith, at),
        )
