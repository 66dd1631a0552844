-- ===== src/Translation/Translator.antt =====
-- project/driver/src/DataTranslator.cpp: the tables from type codes to workers.
use ez_rets.Base.{
  ℕ, Bool, false, List, [], ◌∷◌, ◌++◌, Option, none, some, if◌then◌else◌, Text, ℤ, negsuc, eqb_ℤ,
  codes,
}
use ez_rets.Memory.{Memory}
use ez_rets.Odbc.{
  sql_c_stinyint, sql_c_sshort, sql_c_slong, sql_c_sbigint, sql_varchar, sql_char, sql_binary,
  sql_varbinary, sql_c_ulong, sql_c_ushort, sql_null_data,
}
use ez_rets.Odbc.Names.{get_type_name}
use ez_rets.Platform.{Platform}
use ez_rets.Stream.{DataStreamInfo}
use ez_rets.Translation.{
  Worker, bit, date, timestamp, time, tiny, small_int, int, big_int, decimal, character, double,
  binary, numeric, ulong, ushort, Outcome, Exception, missing_translator, data_translation,
  bad_lexical_cast, set_result_size, get_odbc_type, get_odbc_type_name, get_odbc_type_length,
}
use ez_rets.Translation.Workers
use ez_rets.Translation.Workers.{throws}
use ez_rets.Translation.Long.{translate_character, translate_binary}
use ez_rets.Translation.Numeric.{translate_numeric}

-- librets::MetadataTable::DataType
pub data DataType : Type 0 where
  rets_boolean rets_character rets_date rets_date_time rets_time rets_tiny rets_small rets_int
        rets_long rets_decimal :
      DataType

-- A std::map by its entries, one for a key.
abbrev pub SqlTypeMap : Type 0
SqlTypeMap = List (ℤ × Worker)

-- map[key] = value
unfoldable pub assign : ℤ → Worker → SqlTypeMap → SqlTypeMap
assign k w [] = (k, w) ∷ []
assign k w ((j, v) ∷ m) = if eqb_ℤ j k then (k, w) ∷ m else (j, v) ∷ assign k w m

-- map.find(key)
unfoldable pub find : ℤ → SqlTypeMap → Option Worker
find k [] = none
find k ((j, v) ∷ m) = if eqb_ℤ j k then some v else find k m

-- mOdbc2Trans[w->getOdbcType()] = w
unfoldable pub register : Worker → SqlTypeMap → SqlTypeMap
unfolding assign get_odbc_type
register w m = assign (get_odbc_type w) w m

-- mOdbc2Trans after the constructor of NativeDataTranslator.
unfoldable pub odbc2trans : Bool → SqlTypeMap
unfolding register
odbc2trans decimal_as_string =
    let dates = register time (register timestamp (register date (register bit []))) in
    let tinies = assign sql_c_stinyint tiny (register tiny dates) in
    let smalls = assign sql_c_sshort small_int (register small_int tinies) in
    let ints = assign sql_c_slong int (register int smalls) in
    let bigs = assign sql_c_sbigint big_int (register big_int ints) in
    let decimals = if decimal_as_string then bigs else register decimal bigs in
    let texts = assign sql_char character (register character decimals) in
    let doubles = register double texts in
    let blobs = assign sql_varbinary binary (assign sql_binary binary (register binary doubles)) in
    assign sql_c_ushort ushort (assign sql_c_ulong ulong (register numeric blobs))

-- mRets2Odbc after the constructor of NativeDataTranslator.
unfoldable pub rets2odbc : Bool → DataType → ℤ
unfolding get_odbc_type
rets2odbc decimal_as_string rets_boolean = get_odbc_type bit
rets2odbc decimal_as_string rets_date = get_odbc_type date
rets2odbc decimal_as_string rets_date_time = get_odbc_type timestamp
rets2odbc decimal_as_string rets_time = get_odbc_type time
rets2odbc decimal_as_string rets_tiny = get_odbc_type tiny
rets2odbc decimal_as_string rets_small = get_odbc_type small_int
rets2odbc decimal_as_string rets_int = get_odbc_type int
rets2odbc decimal_as_string rets_long = get_odbc_type big_int
rets2odbc decimal_as_string rets_decimal =
    if decimal_as_string then sql_varchar else get_odbc_type decimal
rets2odbc decimal_as_string rets_character = get_odbc_type character

-- mExceptionMap after the constructor of CharOnlyDataTranslator.
unfoldable pub exception_map : SqlTypeMap
unfolding register
exception_map = assign sql_varbinary binary (assign sql_binary binary (register binary []))

-- The subclasses of DataTranslator; `native true` has the quirk DECIMAL_AS_STRING.
pub data DataTranslator : Type 0 where
  native : Bool → DataTranslator
  char_only : DataTranslator

-- DataTranslator::factory, given the two settings of the data source, or none of them
unfoldable pub factory : Option (Bool × Bool) → DataTranslator
factory none = native false
factory (some (ignore_metadata_type, treat_decimal_as_string)) =
    if ignore_metadata_type then char_only else native treat_decimal_as_string

-- getPreferedOdbcType
unfoldable pub get_prefered_odbc_type : DataTranslator → DataType → ℤ
unfolding rets2odbc get_odbc_type
get_prefered_odbc_type (native quirk) type = rets2odbc quirk type
get_prefered_odbc_type char_only type = get_odbc_type character

-- The worker that a translator uses for a type code.
unfoldable pub worker_for : DataTranslator → ℤ → Option Worker
unfolding odbc2trans exception_map find
worker_for (native quirk) type = find type (odbc2trans quirk)
worker_for char_only type = elim (find type exception_map) [
  | none ↦ some character
  | some w ↦ some w
]

-- getOdbcTypeName
unfoldable pub translator_type_name : DataTranslator → ℤ → Text
unfolding worker_for get_odbc_type_name
translator_type_name t type = elim (worker_for t type) [
  | none ↦ codes "VARCHAR"
  | some w ↦ get_odbc_type_name w
]

-- getOdbcTypeLength
unfoldable pub translator_type_length : DataTranslator → ℤ → ℤ
unfolding worker_for get_odbc_type_length
translator_type_length t type = elim (worker_for t type) [
  | none ↦ negsuc 0
  | some w ↦ get_odbc_type_length w
]

module _ (p : Platform) (text : Text) (type : ℤ) (target : ℕ) (target_len : ℤ) (result_size : ℕ)
    (stream : Option DataStreamInfo) (m : Memory) where
  -- TranslationWorker::translate of each subclass
  unfoldable pub run_worker : Worker → Outcome
  run_worker bit = Workers.translate_bit p text target result_size stream m
  run_worker date = Workers.translate_date p text target result_size stream m
  run_worker timestamp = Workers.translate_timestamp p text target result_size stream m
  run_worker time = Workers.translate_time p text target result_size stream m
  run_worker tiny = Workers.translate_tiny p text target result_size stream m
  run_worker small_int = Workers.translate_small_int p text target result_size stream m
  run_worker int = Workers.translate_int p text target result_size stream m
  run_worker big_int = Workers.translate_big_int p text target result_size stream m
  run_worker decimal = Workers.translate_decimal p text target result_size stream m
  run_worker character = translate_character text target target_len result_size m stream
  run_worker double = Workers.translate_double p text target result_size stream m
  run_worker binary = translate_binary text target target_len result_size m stream
  run_worker numeric = translate_numeric p text target result_size stream m
  run_worker ulong = Workers.translate_ulong p text target result_size stream m
  run_worker ushort = Workers.translate_ushort p text target result_size stream m

  -- catch(b::bad_lexical_cast&)
  abbrev rethrow : Option Exception → Option Exception
  rethrow none = none
  rethrow (some bad_lexical_cast) = some (
      data_translation (
        codes "bad_lexical_cast: could not convert \""
        ++ (text ++ (codes "\" to target type " ++ get_type_name p.print_int type))))
  rethrow (some e) = some e

  abbrev pub native_found : Option Worker → Outcome
  native_found none = throws (set_result_size result_size sql_null_data m) stream (
      missing_translator (
        codes "ezRETS has no translator to turn \""
        ++ (text
            ++ (codes "\" to target type "
                ++ (get_type_name p.print_int type
                    ++ codes " please contact the ezRETS development team.")))))
  native_found (some w) =
      let r = run_worker w in
      record { memory = r.memory; stream = r.stream; thrown = rethrow r.thrown }

  abbrev pub char_only_found : Option Worker → Outcome
  char_only_found none = run_worker character
  char_only_found (some w) = run_worker w

  -- DataTranslator::translate of both subclasses
  unfoldable pub translate : DataTranslator → Outcome
  unfolding odbc2trans exception_map find run_worker set_result_size
  translate (native quirk) = native_found (find type (odbc2trans quirk))
  translate char_only = char_only_found (find type exception_map)
