-- ===== src/Query/Create.antt =====
-- project/driver/src/Query.cpp: Query::createSqlQuery, which makes a query of an SQL statement. The
-- compiler of librets is a parameter; it reads the view of the metadata, which loads tables for it.
use ez_rets.Base.{Bool, if◌then◌else◌, Text, codes}
use ez_rets.Catalogue.{Source}
use ez_rets.Librets.{
  Compiled, dmql, get_object, lookups, lookup_columns, other_query, sql_error, broken_compiler,
}
use ez_rets.MetadataView.{MetadataView}
use ez_rets.Query.{
  Query, data_query, count_query, object_query, lookup_query, lookup_columns_query, Prepared,
  prepared, prepare_result_set,
}
use ez_rets.ResultSet.{ResultSet}

-- librets::SqlToDmqlCompiler::sqlToDmql over the view
pub record Compiler : Type 0 where
  pub sql_to_dmql : MetadataView → Text → MetadataView × Compiled

-- The query with its result set, or the exception: a RetsSqlException, a SqlStateException, another
-- one, or a call through a null pointer.
pub data Created : Type 0 where
  created : Query → ResultSet → Created
  syntax_error : Text → Created
  refused : Text → Text → Created
  broken : Text → Created
  crashed : Created

abbrev pub created_of : Query → MetadataView × Prepared → MetadataView × Created
created_of q (v, prepared rs) = (v, created q rs)
created_of q (v, Prepared.refused sqlstate message) = (v, refused sqlstate message)
created_of q (v, Prepared.crashed) = (v, crashed)

unfoldable pub prepare : Source → Query → MetadataView × Created
unfolding prepare_result_set
prepare s q = created_of q (prepare_result_set s q)

-- The switch over the type of the query
unfoldable pub create_of : Source → Bool → Compiled → MetadataView × Created
unfolding prepare
create_of s compact (dmql q) =
    if q.count_only then prepare s (count_query compact q) else prepare s (data_query compact q)
create_of s compact (get_object q) = prepare s (object_query q)
create_of s compact (lookups q) = prepare s (lookup_query q)
create_of s compact (lookup_columns q) = prepare s (lookup_columns_query q)
create_of s compact other_query = (
  s.view,
  refused (codes "42S02")
      (codes "Miscellaneous Search Error: Invalid Query Type For RETS Translation."),
)
create_of s compact (sql_error e) = (s.view, syntax_error e)
create_of s compact (broken_compiler e) = (s.view, broken e)

-- Query::createSqlQuery
unfoldable pub create_sql_query : Compiler → Source → Bool → Text → MetadataView × Created
unfolding create_of
create_sql_query l s compact query =
    let (v, compiled) = l.sql_to_dmql s.view query in
    create_of (record s { view = v }) compact compiled
