-- ===== src/Odbc.antt =====
-- What the ODBC headers (sql.h, sqlext.h) fix for the driver: return codes, type codes, lengths,
-- and the sizes of a 64-bit build, where SQLLEN and size_t have 64 bits and int has 32.
pub mod Names
use ez_rets.Base.{ℕ, ◌+◌, ◌-◌, ◌%◌, ◌^◌, ltb, if◌then◌else◌, ℤ, pos, negsuc}

pub data SqlReturn : Type 0 where
  success success_with_info no_data error invalid_handle : SqlReturn

abbrev pub sql_char : ℤ
sql_char = pos 1

abbrev pub sql_numeric : ℤ
sql_numeric = pos 2

abbrev pub sql_decimal : ℤ
sql_decimal = pos 3

abbrev pub sql_integer : ℤ
sql_integer = pos 4

abbrev pub sql_smallint : ℤ
sql_smallint = pos 5

abbrev pub sql_double : ℤ
sql_double = pos 8

abbrev pub sql_varchar : ℤ
sql_varchar = pos 12

abbrev pub sql_type_date : ℤ
sql_type_date = pos 91

abbrev pub sql_type_time : ℤ
sql_type_time = pos 92

abbrev pub sql_type_timestamp : ℤ
sql_type_timestamp = pos 93

abbrev pub sql_longvarchar : ℤ
sql_longvarchar = negsuc 0

abbrev pub sql_binary : ℤ
sql_binary = negsuc 1

abbrev pub sql_varbinary : ℤ
sql_varbinary = negsuc 2

abbrev pub sql_longvarbinary : ℤ
sql_longvarbinary = negsuc 3

abbrev pub sql_bigint : ℤ
sql_bigint = negsuc 4

abbrev pub sql_tinyint : ℤ
sql_tinyint = negsuc 5

abbrev pub sql_bit : ℤ
sql_bit = negsuc 6

abbrev pub sql_c_slong : ℤ
sql_c_slong = negsuc 15

abbrev pub sql_c_sshort : ℤ
sql_c_sshort = negsuc 14

abbrev pub sql_c_stinyint : ℤ
sql_c_stinyint = negsuc 25

abbrev pub sql_c_sbigint : ℤ
sql_c_sbigint = negsuc 24

abbrev pub sql_c_ulong : ℤ
sql_c_ulong = negsuc 17

abbrev pub sql_c_ushort : ℤ
sql_c_ushort = negsuc 16

abbrev pub sql_c_default : ℤ
sql_c_default = pos 99

abbrev pub sql_null_data : ℤ
sql_null_data = negsuc 0

abbrev pub sql_date_len : ℕ
sql_date_len = 10

abbrev pub sql_time_len : ℕ
sql_time_len = 8

abbrev pub sql_timestamp_len : ℕ
sql_timestamp_len = 19

abbrev pub size_mod : ℕ
size_mod = 2 ^ 64

-- size_t to SQLLEN.
abbrev pub sqllen_of_size : ℕ → ℤ
sqllen_of_size n = if ltb n (2 ^ 63) then pos n else negsuc (size_mod - 1 - n)

-- SQLLEN to size_t.
abbrev pub size_of_sqllen : ℤ → ℕ
size_of_sqllen (pos n) = n % size_mod
size_of_sqllen (negsuc n) = (size_mod - 1 - n) % size_mod

-- size_t to int, and back to size_t with the sign extended.
abbrev pub size_of_int : ℕ → ℕ
size_of_int n =
    let low : ℕ = n % 2 ^ 32 in if ltb low (2 ^ 31) then low else low + (size_mod - 2 ^ 32)

-- The difference of two values of size_t.
abbrev pub size_sub : ℕ → ℕ → ℕ
size_sub a b = (a + size_mod - b) % size_mod

-- An unsigned number to SQLSMALLINT, by its low 16 bits.
abbrev pub smallint_of_size : ℕ → ℤ
smallint_of_size n =
    let low : ℕ = n % 2 ^ 16 in if ltb low (2 ^ 15) then pos low else negsuc (2 ^ 16 - 1 - low)

-- The number of a return code.
abbrev pub return_code : SqlReturn → ℤ
return_code success = pos 0
return_code success_with_info = pos 1
return_code no_data = pos 100
return_code error = negsuc 0
return_code invalid_handle = negsuc 1
