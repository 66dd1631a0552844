-- ===== src/Odbc/Names.antt =====
-- project/driver/src/GetTypeName.cpp: the name of a type code in the driver's messages.
use ez_rets.Base.{ℤ, pos, negsuc, eqb_ℤ, if◌then◌else◌, Text, codes}

-- getTypeName; the last argument is `lexical_cast<string>`.
unfoldable pub get_type_name : (ℤ → Text) → ℤ → Text
get_type_name lexical_cast type =
    if eqb_ℤ type (pos 12)
    then codes "SQL_VARCHAR"
    else if eqb_ℤ type (pos 3)
    then codes "SQL_DECIMAL"
    else if eqb_ℤ type (pos 1)
    then codes "SQL_C_CHAR"
    else if eqb_ℤ type (pos 4)
    then codes "SQL_C_LONG"
    else if eqb_ℤ type (pos 5)
    then codes "SQL_C_SHORT"
    else if eqb_ℤ type (pos 7)
    then codes "SQL_C_FLOAT"
    else if eqb_ℤ type (pos 8)
    then codes "SQL_C_DOUBLE"
    else if eqb_ℤ type (pos 2)
    then codes "SQL_C_NUMERIC"
    else if eqb_ℤ type (pos 99)
    then codes "SQL_C_DEFAULT"
    else if eqb_ℤ type (pos 9)
    then codes "SQL_C_DATE"
    else if eqb_ℤ type (pos 10)
    then codes "SQL_C_TIME"
    else if eqb_ℤ type (pos 11)
    then codes "SQL_C_TIMESTAMP"
    else if eqb_ℤ type (negsuc 1)
    then codes "SQL_C_BINARY"
    else if eqb_ℤ type (negsuc 6)
    then codes "SQL_C_BIT"
    else if eqb_ℤ type (negsuc 5)
    then codes "SQL_C_TINYINT"
    else if eqb_ℤ type (negsuc 15)
    then codes "SQL_C_SLONG"
    else if eqb_ℤ type (negsuc 14)
    then codes "SQL_C_SSHORT"
    else if eqb_ℤ type (negsuc 25)
    then codes "SQL_C_STINYINT"
    else if eqb_ℤ type (negsuc 17)
    then codes "SQL_C_ULONG"
    else if eqb_ℤ type (negsuc 16)
    then codes "SQL_C_USHORT"
    else if eqb_ℤ type (negsuc 27)
    then codes "SQL_C_UTINYINT"
    else if eqb_ℤ type (pos 91)
    then codes "SQL_C_TYPE_DATE"
    else if eqb_ℤ type (pos 92)
    then codes "SQL_C_TYPE_TIME"
    else if eqb_ℤ type (pos 93)
    then codes "SQL_C_TYPE_TIMESTAMP"
    else if eqb_ℤ type (pos 101)
    then codes "SQL_C_INTERVAL_YEAR"
    else if eqb_ℤ type (pos 102)
    then codes "SQL_C_INTERVAL_MONTH"
    else if eqb_ℤ type (pos 103)
    then codes "SQL_C_INTERVAL_DAY"
    else if eqb_ℤ type (pos 104)
    then codes "SQL_C_INTERVAL_HOUR"
    else if eqb_ℤ type (pos 105)
    then codes "SQL_C_INTERVAL_MINUTE"
    else if eqb_ℤ type (pos 106)
    then codes "SQL_C_INTERVAL_SECOND"
    else if eqb_ℤ type (pos 107)
    then codes "SQL_C_INTERVAL_YEAR_TO_MONTH"
    else if eqb_ℤ type (pos 108)
    then codes "SQL_C_INTERVAL_DAY_TO_HOUR"
    else if eqb_ℤ type (pos 109)
    then codes "SQL_C_INTERVAL_DAY_TO_MINUTE"
    else if eqb_ℤ type (pos 110)
    then codes "SQL_C_INTERVAL_DAY_TO_SECOND"
    else if eqb_ℤ type (pos 111)
    then codes "SQL_C_INTERVAL_HOUR_TO_MINUTE"
    else if eqb_ℤ type (pos 112)
    then codes "SQL_C_INTERVAL_HOUR_TO_SECOND"
    else if eqb_ℤ type (pos 113)
    then codes "SQL_C_INTERVAL_MINUTE_TO_SECOND"
    else if eqb_ℤ type (negsuc 24)
    then codes "SQL_C_SBIGINT"
    else if eqb_ℤ type (negsuc 26)
    then codes "SQL_C_UBIGINT"
    else if eqb_ℤ type (negsuc 10)
    then codes "SQL_C_GUID"
    else lexical_cast type
