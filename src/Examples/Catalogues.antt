-- ===== src/Examples/Catalogues.antt =====
-- The catalogue of the houses' metadata.
use ez_rets.Base.{◌≡◌, refl, true, [], none, Text, pos, codes, has, text_eq}
use ez_rets.Catalogue.{Sorting, Source}
use ez_rets.Catalogue.Columns.{sql_columns, column_columns}
use ez_rets.Catalogue.Keys.{
  primary_keys, key_columns, special_columns, special_columns_columns, statistics,
  statistics_columns,
}
use ez_rets.Catalogue.Tables.{sql_tables, table_columns}
use ez_rets.Catalogue.Types.{type_info, type_columns}
use ez_rets.Catalogue.Unknown.{sql_columns-unknown}
use ez_rets.Catalogue.Widths.{Fit, sql_tables-Fit}
use ez_rets.Examples.Data.{plain, houses, property, residential, split_on}
use ez_rets.Examples.Sources.{mls}
use ez_rets.Map.{put, get}
use ez_rets.MetadataView.{create, get_table, get_table_in, loaded, get_resource, get_class}
use ez_rets.MetadataView.Names.{make_sql_data_table_name, get_pair_by_sql_table}

abbrev pub unsorted : Sorting
unsorted = record { icontains = λ s t. true; to_upper = λ t. t; sort = λ less ts. ts }

abbrev pub source : Source
unfolding create
source = record {
  data_source = mls;
  view = create true houses;
  session_login_url = codes "http://mls.example/login";
}

abbrev house_table : Text
house_table = codes "data:Property:ResidentialProperty"

sql_tables-Fit_example :
    Fit table_columns (sql_tables plain unsorted source [] [] [] []).rows
    × (Fit column_columns (sql_columns plain unsorted source [] []).rows
        × (Fit key_columns (primary_keys plain source []).rows
            × (Fit special_columns_columns (special_columns plain source 1 [] 0 1).rows
                × (Fit statistics_columns (statistics source).rows
                    × Fit type_columns (type_info plain source (pos 12)).rows))))
sql_tables-Fit_example = sql_tables-Fit plain unsorted source [] [] [] [] [] (pos 12) 1 0 1

sql_columns-unknown_example :
    (sql_columns plain unsorted source house_table (codes "Garage")).result ≡ none
unfolding source has text_eq get_pair_by_sql_table split_on get_resource get_class get put create
    get_table get_table_in loaded make_sql_data_table_name
sql_columns-unknown_example =
    sql_columns-unknown plain unsorted source property residential
      (get_table source.view residential (codes "Garage")).0 house_table (codes "Garage") refl refl
      refl refl refl refl refl refl
