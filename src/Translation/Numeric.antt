-- ===== src/Translation/Numeric.antt =====
-- project/driver/src/TranslationWorkers.cpp: NumericTranslationWorker, which fills a
-- SQL_NUMERIC_STRUCT (precision, scale, sign, and sixteen little-endian bytes of the scaled value).
pub mod Decoding
use ez_rets.Base.{
  ℕ, zero, suc, ◌+◌, ◌-◌, ◌*◌, ◌/◌, ◌%◌, ◌^◌, ◌≡◌, refl, Bool, true, false, List, [], ◌∷◌, ◌++◌,
  Option, none, some, ◌==◌, leb, if◌then◌else◌, Text, ℤ, pos, codes, length, take, is_empty,
}
use ez_rets.Memory.{Memory, write_bytes}
use ez_rets.Platform.{Platform}
use ez_rets.Stream.{DataStreamInfo}
use ez_rets.Translation.{Outcome, data_translation, set_result_size}
use ez_rets.Translation.Workers.{returns, throws, null_result}

-- std::string::find_first_of of one character
unfoldable pub find_first_of : ℕ → Text → Option ℕ
find_first_of c [] = none
find_first_of c (x ∷ xs) =
    if x == c then some 0 else elim (find_first_of c xs) [ none ↦ none | some i ↦ some (suc i) ]

-- The bytes of an unsigned integer as a little-endian machine holds it.
unfoldable pub le_bytes : ℕ → ℕ → Text
le_bytes zero n = []
le_bytes (suc k) n = (n % 256) ∷ le_bytes k (n / 256)

-- A sign character, taken off the text.
unfoldable pub take_sign : Platform → Text → ℕ × Text
take_sign p [] = (1, [])
take_sign p (c ∷ cs) = if c == b'-' then (0, p.erase_head (c ∷ cs) 1) else (1, c ∷ cs)

abbrev pub replicate : ℕ → ℕ → Text
replicate zero a = []
replicate (suc n) a = a ∷ replicate n a

module _ (p : Platform) (text : Text) (target result_size : ℕ)
    (stream : Option DataStreamInfo) where
  abbrev numeric_error : Memory → Outcome
  numeric_error m =
      throws m stream (
        data_translation
          (codes "bad_cast: could not convert \"" ++ (text ++ codes "\" to NUMERIC")))

  -- `std::copy(&chararray[0], &chararray[7], ...)` stops before the eighth byte.
  abbrev store_value : Memory → Option ℕ → Outcome
  store_value m none = numeric_error (write_bytes m (target + 3) (replicate 16 0))
  store_value m (some v) =
      let zeroed = write_bytes m (target + 3) (replicate 16 0) in
      returns
        (set_result_size result_size (pos 19)
          (write_bytes zeroed (target + 3) (take 7 (le_bytes 8 v))))
        stream

  abbrev store_scale : Memory → Text → Option ℕ → Outcome
  store_scale m digits none =
      store_value (write_bytes (write_bytes m (target + 1) (0 ∷ [])) (target + 0) (0 ∷ []))
        (p.lexical_cast_unsigned 64 digits)
  store_scale m digits (some index) =
      let scale = length digits - index - 1 in
      if leb scale 127
      then store_value
          (write_bytes (write_bytes m (target + 1) (scale ∷ [])) (target + 0) (scale ∷ []))
          (p.lexical_cast_unsigned 64 (p.erase_all digits b'.'))
      else numeric_error m

  abbrev store_sign : Memory → ℕ × Text → Outcome
  store_sign m (sign, digits) =
      store_scale (write_bytes m (target + 2) (sign ∷ [])) digits (find_first_of b'.' digits)

  -- NumericTranslationWorker::translate
  unfoldable pub translate_numeric : Memory → Outcome
  unfolding set_result_size write_bytes find_first_of le_bytes take_sign
  translate_numeric m =
      if is_empty (p.trim_copy text)
      then null_result p text target result_size stream m
      else store_sign m (take_sign p (p.trim_copy text))
