-- ===== src/Examples/Values.antt =====
-- Null fields and dates.
use ez_rets.Base.{◌≡◌, refl, false, [], ◌∷◌, none, some, arith, pos, codes, take, drop}
use ez_rets.Examples.Data.{plain, blank}
use ez_rets.Odbc.{sql_c_slong, sql_null_data, sql_date_len}
use ez_rets.Platform.{Platform}
use ez_rets.Translation.{set_result_size, is_blank, int}
use ez_rets.Translation.Dates.{translate_date-fields}
use ez_rets.Translation.Nulls.{translate-nil}
use ez_rets.Translation.Translator.{native, translate, worker_for}
use ez_rets.Translation.Workers.{returns, translate_date}

translate-nil_example :
    translate plain [] sql_c_slong 1000 (pos 4) 2000 none blank (native false)
    ≡ returns (set_result_size 2000 sql_null_data blank) none
unfolding worker_for
translate-nil_example =
    translate-nil plain refl sql_c_slong 1000 (pos 4) 2000 none blank (native false) int refl

-- The parts of a text of the form yyyy-mm-dd.
abbrev dated : Platform
dated = record plain {
  regex_search =
      λ regex t. some (some (take 4 t) ∷ some (take 2 (drop 5 t)) ∷ some (take 2 (drop 8 t)) ∷ []);
}

translate_date-fields_example :
    let r = translate_date dated (codes "2011-03-09") 1000 2000 none blank in
    (r.thrown ≡ none)
    × (r.memory.words 2000 ≡ pos sql_date_len)
    × (r.memory.words 1000 ≡ pos 2011)
    × (r.memory.words 1002 ≡ pos 3)
    × (r.memory.words 1004 ≡ pos 9)
unfolding is_blank
translate_date-fields_example =
    translate_date-fields dated (codes "2011-03-09") (codes "2011") (codes "03") (codes "09")
      (pos 2011) (pos 3) (pos 9) refl refl refl refl refl 1000 2000 (omega arith) (omega arith) none
      blank (omega arith) (omega arith) (omega arith)
