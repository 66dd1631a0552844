-- ===== src/Translation/Workers.antt =====
-- project/driver/src/TranslationWorkers.cpp: the `translate` of each worker that yields a fixed
-- number of bytes. `target` is the client's buffer and `result_size` its length indicator.
use ez_rets.Base.{
  ℕ, zero, suc, ◌+◌, Bool, true, false, ◌&&◌, List, [], ◌∷◌, ◌++◌, Option, none, some, leb,
  if◌then◌else◌, Text, ℤ, pos, negsuc, eqb_ℤ, codes, text_eq,
}
use ez_rets.Memory.{Memory, set_word, write_bytes}
use ez_rets.Odbc.{sql_null_data, sql_date_len, sql_time_len, sql_timestamp_len}
use ez_rets.Platform.{Platform}
use ez_rets.Stream.{DataStreamInfo}
use ez_rets.Translation.{
  Outcome, Exception, bad_lexical_cast, bad_numeric_cast, date_time_format, set_result_size,
  is_blank,
}

abbrev pub returns : Memory → Option DataStreamInfo → Outcome
returns m stream = record { memory = m; stream = stream; thrown = none }

abbrev pub throws : Memory → Option DataStreamInfo → Exception → Outcome
throws m stream e = record { memory = m; stream = stream; thrown = some e }

module _ (p : Platform) (text : Text) (target result_size : ℕ) (stream : Option DataStreamInfo)
    (m : Memory) where
  -- What all workers do with a null value.
  abbrev pub null_result : Outcome
  null_result = returns (set_result_size result_size sql_null_data m) stream

  -- BitTranslationWorker::translate
  unfoldable pub translate_bit : Outcome
  unfolding is_blank set_result_size text_eq write_bytes
  translate_bit =
      if is_blank p text
      then null_result
      else let value : ℕ = if text_eq text (codes "0") then 0 else 1 in
        returns (set_result_size result_size (pos 1) (write_bytes m target (value ∷ []))) stream

  -- The workers for integers: the cast, one assignment through the target, the size. The cast's
  -- own exception leaves the worker.
  abbrev store_integer : ℕ → Option ℤ → Outcome
  store_integer size none = throws m stream bad_lexical_cast
  store_integer size (some v) =
      returns (set_result_size result_size (pos size) (set_word m target v)) stream

  -- SmallIntTranslationWorker::translate
  unfoldable pub translate_small_int : Outcome
  unfolding is_blank set_result_size
  translate_small_int =
      if is_blank p text then null_result else store_integer 2 (p.lexical_cast_signed 16 text)

  -- IntTranslationWorker::translate
  unfoldable pub translate_int : Outcome
  unfolding is_blank set_result_size
  translate_int =
      if is_blank p text then null_result else store_integer 4 (p.lexical_cast_signed 32 text)

  -- BigIntTranslationWorker::translate
  unfoldable pub translate_big_int : Outcome
  unfolding is_blank set_result_size
  translate_big_int =
      if is_blank p text then null_result else store_integer 8 (p.lexical_cast_signed 64 text)

  abbrev unsigned : Option ℕ → Option ℤ
  unsigned none = none
  unsigned (some n) = some (pos n)

  -- ULongTranslationWorker::translate
  unfoldable pub translate_ulong : Outcome
  unfolding is_blank set_result_size
  translate_ulong =
      if is_blank p text
      then null_result
      else store_integer 4 (unsigned (p.lexical_cast_unsigned 32 text))

  -- UShortTranslationWorker::translate
  unfoldable pub translate_ushort : Outcome
  unfolding is_blank set_result_size
  translate_ushort =
      if is_blank p text
      then null_result
      else store_integer 2 (unsigned (p.lexical_cast_unsigned 16 text))

  -- numeric_cast<char>
  abbrev fits_char : ℤ → Bool
  fits_char (pos n) = leb n 127
  fits_char (negsuc n) = leb n 127

  abbrev store_tiny : Option ℤ → Outcome
  store_tiny none = throws m stream bad_lexical_cast
  store_tiny (some v) =
      if fits_char v then store_integer 1 (some v) else throws m stream bad_numeric_cast

  -- TinyTranslationWorker::translate
  unfoldable pub translate_tiny : Outcome
  unfolding is_blank set_result_size
  translate_tiny =
      if is_blank p text then null_result else store_tiny (p.lexical_cast_signed 32 text)

  abbrev store_bytes : ℕ → Option Text → Outcome
  store_bytes size none = throws m stream bad_lexical_cast
  store_bytes size (some bs) =
      returns (set_result_size result_size (pos size) (write_bytes m target bs)) stream

  -- DecimalTranslationWorker::translate
  unfoldable pub translate_decimal : Outcome
  unfolding is_blank set_result_size write_bytes
  translate_decimal =
      if is_blank p text then null_result else store_bytes 1 (p.lexical_cast_decimal text)

  -- DoubleTranslationWorker::translate
  unfoldable pub translate_double : Outcome
  unfolding is_blank set_result_size write_bytes
  translate_double =
      if is_blank p text then null_result else store_bytes 8 (p.lexical_cast_double text)

-- Group `i` of a match, counted from 1: its text, if it took part.
abbrev pub group : List (Option Text) → ℕ → Option Text
group gs zero = none
group [] (suc i) = none
group (g ∷ gs) (suc zero) = g
group (g ∷ gs) (suc (suc i)) = group gs (suc i)

-- The assignments `field = matched ? lexical_cast<SQLSMALLINT>(group) : 0`, in their order; false
-- if a cast threw, with the fields before it written.
unfoldable pub cast_fields : Platform → ℕ → List (ℕ × Option Text) → Memory → Memory × Bool
cast_fields p target [] m = (m, true)
cast_fields p target ((at, none) ∷ fs) m =
    cast_fields p target fs (set_word m (target + at) (pos 0))
cast_fields p target ((at, some t) ∷ fs) m = elim (p.lexical_cast_signed 16 t) [
  | none ↦ (m, false)
  | some v ↦ cast_fields p target fs (set_word m (target + at) v)
]

abbrev pub date_regex : Text
date_regex = codes "(\\d{4})-(\\d{2})-(\\d{2})"

abbrev pub timestamp_regex : Text
timestamp_regex =
    codes "(\\d{4})-(\\d{2})-(\\d{2})((\\s?T?)?(\\d{2}):(\\d{2}):(\\d{2})(\\.(\\d{3}))?)?"

abbrev pub time_regex : Text
time_regex = codes "(\\d{2}):(\\d{2}):(\\d{2})"

-- The offsets of year, month and day in DATE_STRUCT.
abbrev pub date_fields : List (Option Text) → List (ℕ × Option Text)
date_fields gs = (0, group gs 1) ∷ (2, group gs 2) ∷ (4, group gs 3) ∷ []

-- The offsets of the fields of TIMESTAMP_STRUCT.
abbrev pub timestamp_fields : List (Option Text) → List (ℕ × Option Text)
timestamp_fields gs =
    (0, group gs 1)
    ∷ (2, group gs 2)
    ∷ (4, group gs 3)
    ∷ (6, group gs 6)
    ∷ (8, group gs 7)
    ∷ (10, group gs 8)
    ∷ (12, group gs 10)
    ∷ []

-- The offsets of hour, minute and second in TIME_STRUCT.
abbrev pub time_fields : List (Option Text) → List (ℕ × Option Text)
time_fields gs = (0, group gs 1) ∷ (2, group gs 2) ∷ (4, group gs 3) ∷ []

abbrev bad_cast_message : Text → Text → Text
bad_cast_message text kind =
    codes "bad_lexical_cast: could not convert \"" ++ (text ++ (codes "\" to " ++ kind))

module _ (p : Platform) (text : Text) (target result_size : ℕ) (stream : Option DataStreamInfo)
    (m : Memory) where
  -- The sanity check of DateTranslationWorker: 0000-00-00 is null.
  abbrev date_written : Memory × Bool → Outcome
  date_written (m', false) =
      throws m' stream (date_time_format (bad_cast_message text (codes "Date")))
  date_written (m', true) =
      if eqb_ℤ (m'.words (target + 0)) (pos 0)
        && (eqb_ℤ (m'.words (target + 2)) (pos 0) && eqb_ℤ (m'.words (target + 4)) (pos 0))
      then returns (set_result_size result_size sql_null_data m') stream
      else returns (set_result_size result_size (pos sql_date_len) m') stream

  abbrev date_matched : Option (List (Option Text)) → Outcome
  date_matched none =
      throws (set_result_size result_size sql_null_data m) stream
        (date_time_format (codes "Value not a date: " ++ text))
  date_matched (some gs) = date_written (cast_fields p target (date_fields gs) m)

  -- DateTranslationWorker::translate
  unfoldable pub translate_date : Outcome
  unfolding set_result_size
  translate_date =
      if is_blank p text
      then null_result p text target result_size stream m
      else date_matched (p.regex_search date_regex text)

  abbrev timestamp_written : Memory × Bool → Outcome
  timestamp_written (m', false) =
      throws m' stream (date_time_format (bad_cast_message text (codes "Timestamp")))
  timestamp_written (m', true) =
      returns (set_result_size result_size (pos sql_timestamp_len) m') stream

  abbrev timestamp_matched : Option (List (Option Text)) → Outcome
  timestamp_matched none =
      throws (set_result_size result_size sql_null_data m) stream
        (date_time_format (codes "Value not a timestamp: " ++ text))
  timestamp_matched (some gs) = timestamp_written (cast_fields p target (timestamp_fields gs) m)

  -- TimestampTranslationWorker::translate
  unfoldable pub translate_timestamp : Outcome
  unfolding is_blank set_result_size cast_fields
  translate_timestamp =
      if is_blank p text
      then null_result p text target result_size stream m
      else timestamp_matched (p.regex_search timestamp_regex text)

  abbrev time_written : Memory × Bool → Outcome
  time_written (m', false) =
      throws m' stream (date_time_format (bad_cast_message text (codes "Time")))
  time_written (m', true) = returns (set_result_size result_size (pos sql_time_len) m') stream

  abbrev time_matched : Option (List (Option Text)) → Outcome
  time_matched none =
      throws (set_result_size result_size sql_null_data m) stream
        (date_time_format (codes "Value not a time: " ++ text))
  time_matched (some gs) = time_written (cast_fields p target (time_fields gs) m)

  -- TimeTranslationWorker::translate
  unfoldable pub translate_time : Outcome
  unfolding is_blank set_result_size cast_fields
  translate_time =
      if is_blank p text
      then null_result p text target result_size stream m
      else time_matched (p.regex_search time_regex text)
