-- ===== src/Translation.antt =====
-- project/driver/src/TranslationWorkers.cpp: what all workers share.
pub mod Results
pub mod Workers
pub mod Numeric
pub mod Long
pub mod Translator
pub mod Pieces
pub mod Types
pub mod Nulls
pub mod Dates
use ez_rets.Base.{
  ℕ, ◌≡◌, Bool, ◌||◌, Option, none, some, ◌==◌, if◌then◌else◌, Text, is_empty, ℤ, pos, negsuc,
  codes,
}
use ez_rets.Memory.{Memory, set_word}
use ez_rets.Odbc.{
  sql_bit, sql_type_date, sql_type_timestamp, sql_type_time, sql_tinyint, sql_smallint, sql_integer,
  sql_bigint, sql_decimal, sql_varchar, sql_double, sql_longvarbinary, sql_numeric, sql_c_ulong,
  sql_c_ushort, sql_null_data, sql_date_len, sql_timestamp_len, sql_time_len,
}
use ez_rets.Platform.{Platform}
use ez_rets.Stream.{DataStreamInfo}

-- The subclasses of TranslationWorker.
pub data Worker : Type 0 where
  bit date timestamp time tiny small_int int big_int decimal character double binary numeric ulong
        ushort :
      Worker

-- The exceptions of the translation, those of boost and the library, and any other by its what().
pub data Exception : Type 0 where
  missing_translator date_time_format data_translation raised : Text → Exception
  bad_lexical_cast bad_numeric_cast out_of_range : Exception

-- e.what()
unfoldable pub what : Platform → Exception → Text
what p (missing_translator t) = t
what p (date_time_format t) = t
what p (data_translation t) = t
what p (raised t) = t
what p bad_lexical_cast = p.bad_lexical_cast_what
what p bad_numeric_cast = p.bad_numeric_cast_what
what p out_of_range = p.out_of_range_what

-- What a call of `translate` leaves behind, and the exception that it ended with.
pub record Outcome : Type 0 where
  pub memory : Memory
  pub stream : Option DataStreamInfo
  pub thrown : Option Exception

-- TranslationWorker::setResultSize
unfoldable pub set_result_size : ℕ → ℤ → Memory → Memory
unfolding set_word
set_result_size result_size value m = if result_size == 0 then m else set_word m result_size value

-- The test for a null value with which all workers but three begin.
unfoldable pub is_blank : Platform → Text → Bool
is_blank p s = is_empty s || is_empty (p.trim_copy s)

-- getOdbcType
unfoldable pub get_odbc_type : Worker → ℤ
get_odbc_type bit = sql_bit
get_odbc_type date = sql_type_date
get_odbc_type timestamp = sql_type_timestamp
get_odbc_type time = sql_type_time
get_odbc_type tiny = sql_tinyint
get_odbc_type small_int = sql_smallint
get_odbc_type int = sql_integer
get_odbc_type big_int = sql_bigint
get_odbc_type decimal = sql_decimal
get_odbc_type character = sql_varchar
get_odbc_type double = sql_double
get_odbc_type binary = sql_longvarbinary
get_odbc_type numeric = sql_numeric
get_odbc_type ulong = sql_c_ulong
get_odbc_type ushort = sql_c_ushort

-- getOdbcTypeName
unfoldable pub get_odbc_type_name : Worker → Text
get_odbc_type_name bit = codes "BOOLEAN"
get_odbc_type_name date = codes "DATE"
get_odbc_type_name timestamp = codes "DATE_TIME"
get_odbc_type_name time = codes "TIME"
get_odbc_type_name tiny = codes "TINY"
get_odbc_type_name small_int = codes "SMALL"
get_odbc_type_name int = codes "INT"
get_odbc_type_name big_int = codes "LONG"
get_odbc_type_name decimal = codes "DECIMAL"
get_odbc_type_name character = codes "CHARACTER"
get_odbc_type_name double = codes "DOUBLE"
get_odbc_type_name binary = codes "LONG VARBINARY"
get_odbc_type_name numeric = codes "NUMERIC"
get_odbc_type_name ulong = codes "ULONG"
get_odbc_type_name ushort = codes "USHORT"

-- getOdbcTypeLength, with the sizes of SQLDECIMAL, ULONG and the like on 64-bit unixODBC.
unfoldable pub get_odbc_type_length : Worker → ℤ
get_odbc_type_length bit = pos 1
get_odbc_type_length date = pos sql_date_len
get_odbc_type_length timestamp = pos sql_timestamp_len
get_odbc_type_length time = pos sql_time_len
get_odbc_type_length tiny = pos 1
get_odbc_type_length small_int = pos 2
get_odbc_type_length int = pos 4
get_odbc_type_length big_int = pos 8
get_odbc_type_length decimal = pos 1
get_odbc_type_length character = negsuc 0
get_odbc_type_length double = pos 8
get_odbc_type_length binary = negsuc 0
get_odbc_type_length numeric = pos 19
get_odbc_type_length ulong = pos 4
get_odbc_type_length ushort = pos 2
