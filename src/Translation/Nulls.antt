-- ===== src/Translation/Nulls.antt =====
-- project/driver/src/DataTranslator.cpp and TranslationWorkers.cpp: that an empty field is null.
use ez_rets.Base.{ℕ, ◌≡◌, refl, [], Option, none, some, ℤ}
use ez_rets.Memory.{Memory}
use ez_rets.Odbc.{sql_null_data}
use ez_rets.Platform.{Platform}
use ez_rets.Stream.{DataStreamInfo}
use ez_rets.Translation.{Worker, character, numeric, set_result_size}
use ez_rets.Translation.Long.{translate_character, translate_binary}
use ez_rets.Translation.Numeric.{translate_numeric}
use ez_rets.Translation.Translator.{
  DataTranslator, native, char_only, translate, run_worker, worker_for, char_only_found,
}
use ez_rets.Translation.Workers.{
  returns, translate_bit, translate_small_int, translate_int, translate_big_int, translate_ulong,
  translate_ushort, translate_tiny, translate_decimal, translate_double, translate_date,
  translate_timestamp, translate_time,
}

module _ (p : Platform) (trims : p.trim_copy [] ≡ []) (type : ℤ) (target : ℕ) (target_len : ℤ)
    (result_size : ℕ) (stream : Option DataStreamInfo) (m : Memory) where
  run_worker-nil :
      (w : Worker)
      → run_worker p [] type target target_len result_size stream m w
        ≡ returns (set_result_size result_size sql_null_data m) stream
  unfolding run_worker translate_bit translate_small_int translate_int translate_big_int
      translate_ulong translate_ushort translate_tiny translate_decimal translate_double
      translate_date translate_timestamp translate_time translate_character translate_binary
      translate_numeric
  run_worker-nil numeric = rw trims
  run_worker-nil w = refl

  char_only-nil :
      (found : Option Worker)
      → char_only_found p [] type target target_len result_size stream m found
        ≡ returns (set_result_size result_size sql_null_data m) stream
  char_only-nil none = run_worker-nil character
  char_only-nil (some w) = run_worker-nil w

  -- An empty field is delivered as null for every type that the translator has a worker for: the
  -- length indicator, if there is one, becomes SQL_NULL_DATA, nothing else is written, the stream
  -- stays where it is and there is no error. The library trims nothing to nothing.
  pub translate-nil :
      (t : DataTranslator) (w : Worker)
      → worker_for t type ≡ some w
      → translate p [] type target target_len result_size stream m t
        ≡ returns (set_result_size result_size sql_null_data m) stream
  unfolding translate worker_for
  translate-nil (native quirk) w h = rw (h, run_worker-nil w)
  translate-nil char_only w h = char_only-nil _
