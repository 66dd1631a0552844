-- ===== src/Stmt/Refusing.antt =====
-- project/driver/src/RetsSTMT.cpp: what SQLPrepare leaves when it fails.
use ez_rets.Base.{◌≡◌, ◌≢◌, refl, Option, none, some, Text}
use ez_rets.Catalogue.{Source}
use ez_rets.MetadataView.{MetadataView}
use ez_rets.Odbc.{success}
use ez_rets.Query.Create.{Compiler, Created, created, syntax_error, refused, broken, crashed}
use ez_rets.Stmt.{Stmt, returned, clear_errors}
use ez_rets.Stmt.Queries.{sql_prepare, prepared}

prepared-keeps :
    (s : Stmt) (v : MetadataView) (c : Created)
    → (prepared s (v, c)).end ≢ returned success
    → ((prepared s (v, c)).stmt.query ≡ s.query)
      × ((prepared s (v, c)).stmt.result_set ≡ s.result_set)
prepared-keeps s v (created q rs) ne = absurd (ne refl)
prepared-keeps s v (syntax_error e) ne = (refl, refl)
prepared-keeps s v (refused sqlstate message) ne = (refl, refl)
prepared-keeps s v (broken e) ne = (refl, refl)
prepared-keeps s v crashed ne = (refl, refl)

-- SQLPrepare that does not give SQL_SUCCESS, whatever the reason, leaves the statement's query and
-- its result set as they were, so that a later SQLExecute runs the query of before.
pub sql_prepare-keeps :
    (l : Compiler) (src : Source) (s : Stmt) (text : Option Text)
    → (sql_prepare l src s text).end ≢ returned success
    → ((sql_prepare l src s text).stmt.query ≡ s.query)
      × ((sql_prepare l src s text).stmt.result_set ≡ s.result_set)
unfolding sql_prepare
sql_prepare-keeps l src s none ne = (refl, refl)
sql_prepare-keeps l src s (some text) ne = prepared-keeps (clear_errors s) _ _ ne
