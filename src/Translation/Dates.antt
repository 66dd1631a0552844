-- ===== src/Translation/Dates.antt =====
-- project/driver/src/TranslationWorkers.cpp: what a client finds in its DATE_STRUCT.
use ez_rets.Base.{
  ℕ, ◌+◌, ◌≡◌, refl, sym, ◌∙◌, ◌≢◌, inl, inr, true, false, ◌&&◌, [], ◌∷◌, Option, none, some, arith,
  if◌then◌else◌, Text, ℤ, pos, eqb_ℤ, Bool-cases,
}
use ez_rets.Memory.{Memory, set_word, words-set_word, words-set_word_other}
use ez_rets.Odbc.{sql_null_data, sql_date_len}
use ez_rets.Platform.{Platform}
use ez_rets.Stream.{DataStreamInfo}
use ez_rets.Translation.{Exception, set_result_size, is_blank}
use ez_rets.Translation.Results.{words-set_result_size}
use ez_rets.Translation.Workers.{translate_date, cast_fields, date_fields, date_regex}

words-set_result_size_other :
    (p q : ℕ) (v : ℤ) (m : Memory) → q ≢ p → (set_result_size p v m).words q ≡ m.words q
unfolding set_result_size set_word
words-set_result_size_other p q v m ne = ground arith

abbrev pub date_indicator : ℤ → ℤ → ℤ → ℤ
date_indicator year month day =
    if eqb_ℤ year (pos 0) && (eqb_ℤ month (pos 0) && eqb_ℤ day (pos 0))
    then sql_null_data
    else pos sql_date_len

module _ (p : Platform) (text y mo d : Text) (year month day : ℤ)
    (not_blank : is_blank p text ≡ false)
    (matched : p.regex_search date_regex text ≡ some (some y ∷ some mo ∷ some d ∷ []))
    (cast_year : p.lexical_cast_signed 16 y ≡ some year)
    (cast_month : p.lexical_cast_signed 16 mo ≡ some month)
    (cast_day : p.lexical_cast_signed 16 d ≡ some day) (target result_size : ℕ)
    (target_set : target ≢ 0) (result_set : result_size ≢ 0) (stream : Option DataStreamInfo)
    (m : Memory) where
  written : Memory
  written = set_word (set_word (set_word m (target + 0) year) (target + 2) month) (target + 4) day

  cast_written :
      cast_fields p target (date_fields (some y ∷ some mo ∷ some d ∷ [])) m ≡ (written, true)
  unfolding cast_fields written
  cast_written =
      rw (cast_year, cast_fields) (rw (cast_month, cast_fields) (rw (cast_day, cast_fields)))

  year_of : written.words (target + 0) ≡ year
  unfolding written
  year_of =
      words-set_word_other _ (target + 0) (target + 4) day (omega arith)
      ∙ words-set_word_other _ (target + 0) (target + 2) month (omega arith)
      ∙ words-set_word m (target + 0) year (omega arith)

  month_of : written.words (target + 2) ≡ month
  unfolding written
  month_of =
      words-set_word_other _ (target + 2) (target + 4) day (omega arith)
      ∙ words-set_word _ (target + 2) month (omega arith)

  day_of : written.words (target + 4) ≡ day
  unfolding written
  day_of = words-set_word _ (target + 4) day (omega arith)

  -- A text in which the library finds the three numbers of a date puts them in the fields of the
  -- DATE_STRUCT, and the indicator is the size of a date, or SQL_NULL_DATA for 0000-00-00. The text
  -- is not blank, the pointers are not null, and the indicator is none of the fields.
  pub translate_date-fields :
      result_size ≢ target + 0
      → result_size ≢ target + 2
      → result_size ≢ target + 4
      → let r = translate_date p text target result_size stream m in
        (r.thrown ≡ none)
        × (r.memory.words result_size ≡ date_indicator year month day)
        × (r.memory.words (target + 0) ≡ year)
        × (r.memory.words (target + 2) ≡ month)
        × (r.memory.words (target + 4) ≡ day)
  unfolding translate_date
  translate_date-fields n0 n2 n4 =
      elim (Bool-cases (eqb_ℤ year (pos 0) && (eqb_ℤ month (pos 0) && eqb_ℤ day (pos 0)))) [
        | inl zero_date ↦
            rw (not_blank, matched, cast_written, year_of, month_of, day_of, zero_date)
              (fields sql_null_data)
        | inr real_date ↦
            rw (not_blank, matched, cast_written, year_of, month_of, day_of, real_date)
              (fields (pos sql_date_len))
      ]
    where
      fields :
          (size : ℤ)
          → ◌≡◌ {A = Option Exception} none none
            × ((set_result_size result_size size written).words result_size ≡ size)
            × ((set_result_size result_size size written).words (target + 0) ≡ year)
            × ((set_result_size result_size size written).words (target + 2) ≡ month)
            × ((set_result_size result_size size written).words (target + 4) ≡ day)
      fields size = (
        refl,
        words-set_result_size result_size size written result_set,
        words-set_result_size_other result_size (target + 0) size written (λ e. n0 (sym e))
            ∙ year_of,
        words-set_result_size_other result_size (target + 2) size written (λ e. n2 (sym e))
            ∙ month_of,
        words-set_result_size_other result_size (target + 4) size written (λ e. n4 (sym e))
            ∙ day_of,
      )
