-- ===== src/Env/Answers.antt =====
-- project/driver/src/RetsSTMT.cpp: proofs on what the calls of a statement leave of its connection.
use ez_rets.Base.{◌≡◌, refl, sym, subst}
use ez_rets.Catalogue.{Sorting, Source, Columns, Executed, translator_of}
use ez_rets.Catalogue.Columns.{column_columns, sql_columns}
use ez_rets.Catalogue.Keys.{key_columns, special_columns_columns, statistics_columns}
use ez_rets.Catalogue.Tables.{table_columns, sql_tables}
use ez_rets.Catalogue.Types.{type_columns, type_info}
use ez_rets.Env.Asking.{
  StmtCall, prepare, exec_direct, execute, tables, columns, get_type_info, special_columns,
  statistics, primary_keys, answer, entered,
}
use ez_rets.Memory.{Memory}
use ez_rets.OnDemand.{or_empty}
use ez_rets.Platform.{Platform}
use ez_rets.Query.{catalogue_query, plain_translator}
use ez_rets.Query.Create.{Compiler}
use ez_rets.Query.Execute.{RetsSession}
use ez_rets.Stmt.{Stmt, End, returned, escaped, crashed, Done, handled, clear_errors}
use ez_rets.Stmt.Catalogues.{
  is_named, names_some, stmt_tables, stmt_columns, stmt_get_type_info, stmt_special_columns,
  stmt_statistics, stmt_primary_keys,
}
use ez_rets.Stmt.Loads.{
  either, Loads, Loads-refl, sql_tables-view, type_info-view, primary_keys-Loads,
  special_columns-Loads, sql_columns-Loads,
}
use ez_rets.Stmt.Queries.{Asked, ask}
use ez_rets.Translation.Translator.{DataTranslator}
use ez_rets.Stmt.Views.{
  IsTame, LoadsOnly, IsGood, sql_prepare-Good, sql_execute-Good, sql_exec_direct-Good, ask-Good,
}

module _ (p : Platform) (l : Compiler) (only : LoadsOnly l) (session : RetsSession)
    (sorting : Sorting) where
  catalogue-Good :
      (src : Source) (s : Stmt) (names : Columns) (translator : Source → DataTranslator)
      (run : Source → Executed)
      → ((x : Source) → Loads x.view (run x).view)
      → IsGood src.view (ask p session src s (catalogue_query names translator run))
  unfolding IsTame
  catalogue-Good src s names translator run tame =
      ask-Good p session src s (catalogue_query names translator run) tame

  answer-Good :
      (src : Source) (s : Stmt) (call : StmtCall)
      → IsTame s.query
      → IsGood src.view (answer p l session sorting src s call)
  unfolding answer stmt_tables stmt_columns stmt_get_type_info stmt_special_columns stmt_statistics
      stmt_primary_keys IsTame ez_rets.Catalogue.Keys.statistics
  answer-Good src s (prepare text) tame = sql_prepare-Good l src s text only tame
  answer-Good src s (exec_direct text) tame = sql_exec_direct-Good p session l src s text only tame
  answer-Good src s execute tame = sql_execute-Good p session src s tame
  answer-Good src s (tables catalog schema table table_type) tame =
      catalogue-Good src (clear_errors s) table_columns (λ x. plain_translator)
        (λ x.
          sql_tables p sorting x (or_empty catalog) (or_empty schema) (or_empty table)
            (or_empty table_type))
        (λ x.
          subst (Loads x.view)
            (sym (
              sql_tables-view p sorting x (or_empty catalog) (or_empty schema) (or_empty table)
                (or_empty table_type)))
            (Loads-refl x.view))
  answer-Good src s (columns catalog table column) tame =
      either (λ (a : Asked). IsGood src.view a) (is_named catalog) (Loads-refl src.view, tame)
        (catalogue-Good src (clear_errors s) column_columns (λ x. translator_of x.data_source)
          (λ x. sql_columns p sorting x (or_empty table) (or_empty column))
          (λ x. sql_columns-Loads p sorting x (or_empty table) (or_empty column)))
  answer-Good src s (get_type_info data_type) tame =
      catalogue-Good src (clear_errors s) type_columns (λ x. plain_translator)
        (λ x. type_info p x data_type)
        (λ x. subst (Loads x.view) (sym (type_info-view p x data_type)) (Loads-refl x.view))
  answer-Good src s (special_columns identifier_type catalog table scope nullable) tame =
      either (λ (a : Asked). IsGood src.view a) (is_named catalog) (Loads-refl src.view, tame)
        (catalogue-Good src (clear_errors s) special_columns_columns (λ x. plain_translator)
          (λ x. ez_rets.Catalogue.Keys.special_columns p x identifier_type table scope nullable)
          (λ x. special_columns-Loads p x identifier_type table scope nullable))
  answer-Good src s (statistics catalog schema) tame =
      either (λ (a : Asked). IsGood src.view a) (names_some catalog) (Loads-refl src.view, tame)
        (either (λ (a : Asked). IsGood src.view a) (names_some schema) (Loads-refl src.view, tame)
          (catalogue-Good src (clear_errors s) statistics_columns (λ x. plain_translator)
            ez_rets.Catalogue.Keys.statistics (λ x. Loads-refl x.view)))
  answer-Good src s (primary_keys catalog table) tame =
      either (λ (a : Asked). IsGood src.view a) (is_named catalog) (Loads-refl src.view, tame)
        (catalogue-Good src (clear_errors s) key_columns (λ x. plain_translator)
          (λ x. ez_rets.Catalogue.Keys.primary_keys p x table) (λ x. primary_keys-Loads p x table))

  -- The handlers keep the query.
  handled-query : (d : Done) (e : End) → (handled p d e).stmt.query ≡ d.stmt.query
  unfolding handled
  handled-query d (returned r) = refl
  handled-query d (escaped e) = refl
  handled-query d crashed = refl

  pub answered :
      (src : Source) (s : Stmt) (call : StmtCall) (m : Memory)
      → IsTame s.query
      → let a = answer p l session sorting src s call in
        Loads src.view a.view × IsTame (entered p l session sorting a m).stmt.query
  unfolding handled
  answered src s call m tame =
      let a = answer p l session sorting src s call in
      let (loads, kept) = answer-Good src s call tame in
      (
        loads,
        subst IsTame (sym (handled-query (record { stmt = a.stmt; memory = m; end = a.end }) a.end))
            kept,
      )
