-- ===== src/Env/Attributes.antt =====
-- project/driver/src/RetsENV.cpp: the attributes of an environment.
use ez_rets.Base.{ℕ, ◌≡◌, ◌≢◌, ◌<◌, refl, ◌∙◌, arith, ℤ, pos, negsuc}
use ez_rets.Env.{Env, sql_get_env_attr, sql_set_env_attr, attr_odbc_version, sqlinteger_of}
use ez_rets.Memory.{words-set_word}
use ez_rets.Odbc.{success}

-- The value is one of SQLINTEGER.
abbrev pub IsSqlinteger : ℤ → Type 0
IsSqlinteger (pos n) = n < 2147483648
IsSqlinteger (negsuc n) = n < 2147483648

sqlinteger_of-IsSqlinteger : (z : ℤ) → IsSqlinteger z → sqlinteger_of z ≡ z
sqlinteger_of-IsSqlinteger (pos n) h = ground arith
sqlinteger_of-IsSqlinteger (negsuc n) h = ground arith

-- An ODBC version that is set is the one that is read back, where the value fits SQLINTEGER and the
-- client's pointer is not null; both calls succeed, and between them the environment may change in
-- all else.
pub get_env_attr-set :
    (w u : Env) (value : ℤ) (value_ptr : ℕ)
    → IsSqlinteger value
    → value_ptr ≢ 0
    → u.odbc_version ≡ (sql_set_env_attr w attr_odbc_version value).0.odbc_version
    → ((sql_set_env_attr w attr_odbc_version value).1 ≡ success)
      × (((sql_get_env_attr u attr_odbc_version value_ptr).1 ≡ success)
          × ((sql_get_env_attr u attr_odbc_version value_ptr).0.memory.words value_ptr ≡ value))
unfolding sql_set_env_attr sql_get_env_attr
get_env_attr-set w u value value_ptr fits here same = (
  refl,
  (
    refl,
    words-set_word u.memory value_ptr u.odbc_version here
        ∙ (same ∙ sqlinteger_of-IsSqlinteger value fits),
  ),
)
