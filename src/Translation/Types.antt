-- ===== src/Translation/Types.antt =====
-- project/driver/src/DataTranslator.cpp and Column.cpp: that the two tables of a translator agree.
use ez_rets.Base.{◌≡◌, refl, Bool, true, false, some}
use ez_rets.Column.{rets, get_best_sql_type}
use ez_rets.Librets.{MetadataTable}
use ez_rets.Odbc.{sql_c_default}
use ez_rets.Translation.{
  Worker, bit, date, timestamp, time, tiny, small_int, int, big_int, decimal, character,
  get_odbc_type,
}
use ez_rets.Translation.Translator.{
  DataTranslator, native, char_only, DataType, rets_boolean, rets_character, rets_date,
  rets_date_time, rets_time, rets_tiny, rets_small, rets_int, rets_long, rets_decimal,
  get_prefered_odbc_type, worker_for,
}

-- The worker of a RETS type.
abbrev prefered_worker : DataTranslator → DataType → Worker
prefered_worker char_only type = character
prefered_worker (native quirk) rets_boolean = bit
prefered_worker (native quirk) rets_character = character
prefered_worker (native quirk) rets_date = date
prefered_worker (native quirk) rets_date_time = timestamp
prefered_worker (native quirk) rets_time = time
prefered_worker (native quirk) rets_tiny = tiny
prefered_worker (native quirk) rets_small = small_int
prefered_worker (native quirk) rets_int = int
prefered_worker (native quirk) rets_long = big_int
prefered_worker (native true) rets_decimal = character
prefered_worker (native false) rets_decimal = decimal

module _ where
  has_worker :
      (t : DataTranslator) (type : DataType)
      → (worker_for t (get_prefered_odbc_type t type) ≡ some (prefered_worker t type))
        × (get_odbc_type (prefered_worker t type) ≡ get_prefered_odbc_type t type)
  unfolding worker_for get_prefered_odbc_type
  has_worker char_only type = (refl, refl)
  has_worker (native true) rets_boolean = (refl, refl)
  has_worker (native false) rets_boolean = (refl, refl)
  has_worker (native true) rets_character = (refl, refl)
  has_worker (native false) rets_character = (refl, refl)
  has_worker (native true) rets_date = (refl, refl)
  has_worker (native false) rets_date = (refl, refl)
  has_worker (native true) rets_date_time = (refl, refl)
  has_worker (native false) rets_date_time = (refl, refl)
  has_worker (native true) rets_time = (refl, refl)
  has_worker (native false) rets_time = (refl, refl)
  has_worker (native true) rets_tiny = (refl, refl)
  has_worker (native false) rets_tiny = (refl, refl)
  has_worker (native true) rets_small = (refl, refl)
  has_worker (native false) rets_small = (refl, refl)
  has_worker (native true) rets_int = (refl, refl)
  has_worker (native false) rets_int = (refl, refl)
  has_worker (native true) rets_long = (refl, refl)
  has_worker (native false) rets_long = (refl, refl)
  has_worker (native true) rets_decimal = (refl, refl)
  has_worker (native false) rets_decimal = (refl, refl)

-- A client that binds any RETS column as SQL_C_DEFAULT gets a worker, never the error of a missing
-- translator, and this worker's own ODBC type is the type that the translator prefers for the
-- column's RETS type; so for each translator and each of the ten RETS types.
worker_for-get_best_sql_type :
    (t : DataTranslator) (table : MetadataTable) (compact : Bool)
    → (w : Worker) × (worker_for t (get_best_sql_type t (rets table compact) sql_c_default)
        ≡ some w)
      × (get_odbc_type w ≡ get_prefered_odbc_type t table.data_type)
unfolding get_best_sql_type
worker_for-get_best_sql_type t table compact =
    let e = has_worker t table.data_type in (prefered_worker t table.data_type, e.0, e.1)
