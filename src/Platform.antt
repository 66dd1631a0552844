-- ===== src/Platform.antt =====
-- What the driver takes from boost and from the C++ runtime: each call is a parameter of the model.
use ez_rets.Base.{ℕ, List, Option, Text, ℤ}

pub record Platform : Type 0 where
  -- boost::trim_copy
  pub trim_copy : Text → Text
  -- boost::erase_head, and boost::erase_all of one character
  pub erase_head : Text → ℕ → Text
  pub erase_all : Text → ℕ → Text
  -- boost::split by one character, without merging adjacent separators
  pub split : Text → ℕ → List Text
  -- librets::util::join
  pub join : List Text → Text → Text
  -- boost::to_lower_copy
  pub to_lower : Text → Text
  -- boost::lexical_cast to a signed and to an unsigned integer of so many bits
  pub lexical_cast_signed : ℕ → Text → Option ℤ
  pub lexical_cast_unsigned : ℕ → Text → Option ℕ
  -- boost::lexical_cast to SQLDOUBLE and SQLDECIMAL, as the bytes of the value
  pub lexical_cast_double : Text → Option Text
  pub lexical_cast_decimal : Text → Option Text
  -- boost::lexical_cast<string>
  pub print_int : ℤ → Text
  -- boost::regex_search: the groups from the first on, each with its text if it took part
  pub regex_search : Text → Text → Option (List (Option Text))
  -- what() of the exceptions that boost and the library throw
  pub bad_lexical_cast_what : Text
  pub bad_numeric_cast_what : Text
  pub out_of_range_what : Text
