-- ===== src/Translation/Numeric/Decoding.antt =====
-- project/driver/src/TranslationWorkers.cpp: what a client decodes from a SQL_NUMERIC_STRUCT.
use ez_rets.Base.{
  ℕ, zero, suc, ◌+◌, ◌*◌, ◌%◌, ◌^◌, ◌≡◌, refl, ap, ap₂, sym, ◌∙◌, ◌≢◌, inr, false, [], ◌∷◌, ◌++◌,
  Option, none, some, arith, Text, length, take, drop, is_empty,
}
use ez_rets.Memory.{
  Memory, write_bytes, read_bytes, poke, peek, peek-poke, peek-append, peek-ext, poke_outside,
  bytes-write_bytes,
}
use ez_rets.Platform.{Platform}
use ez_rets.Stream.{DataStreamInfo}
use ez_rets.Translation.Numeric.{translate_numeric, take_sign, find_first_of, le_bytes, replicate}
use ez_rets.Translation.Results.{bytes-set_result_size}

-- The integer that a little-endian sequence of bytes stands for.
abbrev pub le_value : Text → ℕ
le_value [] = 0
le_value (b ∷ bs) = b + 256 * le_value bs

drop-peek : (f : ℕ → ℕ) (p k : ℕ) (rest : Text) → drop k (peek f p k ++ rest) ≡ rest
drop-peek f p zero rest = refl
drop-peek f p (suc k) rest = drop-peek f (p + 1) k rest

-- Bytes written over the start of others.
peek-poke_over :
    (f : ℕ → ℕ) (p k : ℕ) (zs bs : Text)
    → length zs ≡ length bs + k
    → peek (poke (poke f p zs) p bs) p (length bs + k) ≡ bs ++ drop (length bs) zs
peek-poke_over f p k zs bs e =
    peek-append (poke (poke f p zs) p bs) p (length bs) k
    ∙ ap₂ ◌++◌ (peek-poke (poke f p zs) p bs) rest
  where
    whole : peek (poke f p zs) p (length bs) ++ peek (poke f p zs) (p + length bs) k ≡ zs
    whole =
        sym (peek-append (poke f p zs) p (length bs) k)
        ∙ ap (peek (poke f p zs) p) (sym e)
        ∙ peek-poke f p zs

    rest : peek (poke (poke f p zs) p bs) (p + length bs) k ≡ drop (length bs) zs
    rest =
        peek-ext _ _ _ k (λ x a b. poke_outside (poke f p zs) p bs x (inr a))
        ∙ sym (drop-peek (poke f p zs) p (length bs) (peek (poke f p zs) (p + length bs) k))
        ∙ ap (drop (length bs)) whole

seven_of_eight : (v : ℕ) → le_value (take 7 (le_bytes 8 v) ++ drop 7 (replicate 16 0)) ≡ v % 2 ^ 56
unfolding le_bytes
seven_of_eight v = omega arith

value_stored :
    (m : Memory) (q v : ℕ)
    → q ≢ 0
    → le_value
        (peek (write_bytes (write_bytes m q (replicate 16 0)) q (take 7 (le_bytes 8 v))).bytes q 16)
      ≡ v % 2 ^ 56
unfolding le_bytes
value_stored m q v h =
    ap (λ f. le_value (peek f q 16))
      (bytes-write_bytes (write_bytes m q (replicate 16 0)) q (take 7 (le_bytes 8 v)) h
        ∙ ap (λ f. poke f q (take 7 (le_bytes 8 v))) (bytes-write_bytes m q (replicate 16 0) h))
    ∙ ap le_value (peek-poke_over m.bytes q 9 (replicate 16 0) (take 7 (le_bytes 8 v)) refl)
    ∙ seven_of_eight v

module _ (p : Platform) (text : Text) (target result_size : ℕ) (stream : Option DataStreamInfo)
    (m : Memory) where
  -- The text of an integer, trimmed and without its sign, is cast to `v`; the client decodes from
  -- the value field of the structure that it gets not v but v modulo 2^56: the eighth byte is
  -- lost. The target is not null.
  pub translate_numeric-value :
      (sign v : ℕ) (digits : Text)
      → target ≢ 0
      → is_empty (p.trim_copy text) ≡ false
      → take_sign p (p.trim_copy text) ≡ (sign, digits)
      → find_first_of b'.' digits ≡ none
      → p.lexical_cast_unsigned 64 digits ≡ some v
      → le_value
          (read_bytes (translate_numeric p text target result_size stream m).memory (target + 3) 16)
        ≡ v % 2 ^ 56
  unfolding translate_numeric read_bytes
  translate_numeric-value sign v digits set full signed whole cast =
      rw (full, signed, whole, cast)
        (rw (bytes-set_result_size) (value_stored _ (target + 3) v (omega arith)))
