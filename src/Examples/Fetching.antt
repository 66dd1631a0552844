-- ===== src/Examples/Fetching.antt =====
-- Fetching the rows of a result set.
use ez_rets.Base.{◌≡◌, refl, false, List, [], ◌∷◌, map, some, arith, Text, codes}
use ez_rets.Examples.Data.{plain, blank, houses, two_columns, stmt_of}
use ez_rets.Odbc.{no_data}
use ez_rets.Stmt.{returned}
use ez_rets.Stmt.Fetching.{read_rows, read_rows-filled, filled}
use ez_rets.Translation.Translator.{native}

abbrev two_rows : List (List Text)
two_rows = (codes "a" ∷ codes "Elm" ∷ []) ∷ (codes "b" ∷ codes "Oak" ∷ []) ∷ []

read_rows-filled_example :
    read_rows plain houses 3 (stmt_of (filled (native false) two_columns two_rows)) blank
    ≡ (map some two_rows, some (returned no_data))
read_rows-filled_example =
    read_rows-filled plain houses (stmt_of (filled (native false) two_columns two_rows)) blank
      (native false) two_columns two_rows 3 refl (omega arith)
