-- ===== src/Librets.antt =====
-- What the driver reads from librets: the server's metadata. The objects stand for what their
-- getters return, with the address by which the driver tells them apart.
use ez_rets.Base.{ℕ, Bool, List, Option, Text, ℤ}
use ez_rets.Translation.Translator.{DataType}

-- MetadataTable::Interpretation, as far as the driver looks at it
pub data Interpretation : Type 0 where
  lookup lookup_multi other : Interpretation

-- librets::MetadataTable: a column of a RETS class
pub record MetadataTable : Type 0 where
  pub address : ℕ
  pub system_name : Text
  pub standard_name : Text
  pub long_name : Text
  pub data_type : DataType
  pub interpretation : Interpretation
  pub maximum_length : ℕ
  pub precision : ℕ
  pub searchable : Bool
  pub use_separator : Bool
  pub lookup_name : Text
  pub level : Text

pub record MetadataClass : Type 0 where
  pub address : ℕ
  pub class_name : Text
  pub standard_name : Text
  pub description : Text

pub record MetadataResource : Type 0 where
  pub address : ℕ
  pub resource_id : Text
  pub standard_name : Text
  pub key_field : Text

-- librets::MetadataLookupType
pub record MetadataLookupType : Type 0 where
  pub value : Text
  pub short_value : Text
  pub long_value : Text

-- librets::RetsMetadata
pub record RetsMetadata : Type 0 where
  pub get_all_resources : List MetadataResource
  pub get_all_classes : Text → List MetadataClass
  pub get_all_tables : MetadataClass → List MetadataTable
  -- GetLookupType(resource, lookup, value), as its long value
  pub get_lookup_type : Text → Text → Text → Option Text
  -- GetLookup(resource, lookup), whether it is there, and the lookup types of it
  pub has_lookup : Text → Text → Bool
  pub get_all_lookup_types : Text → Text → List MetadataLookupType

-- What a call of SearchResultSet::HasNext finds in the server's reply: a row, by what GetString gives
-- for a name (`none` where it throws std::invalid_argument), or an exception's what().
pub data Reply : Type 0 where
  row : (Text → Option Text) → Reply
  broken : Text → Reply

-- librets::SearchResultSet: what is still to be read, GetString as it is now and after the last row,
-- and GetCount
pub record SearchResultSet : Type 0 where
  pub pending : List Reply
  pub current : Text → Option Text
  pub after_end : Text → Option Text
  pub count : ℤ

-- librets::ObjectDescriptor
pub record ObjectDescriptor : Type 0 where
  pub reply_code : ℕ
  pub reply_text : Text
  pub object_key : Text
  pub object_id : ℤ
  pub content_type : Text
  pub description : Text
  pub location_url : Text
  pub data_stream : Text

-- What librets::SqlToDmqlCompiler makes of a statement: a DmqlQuery, with its criterion as the text
-- of ToDmqlString, a GetObjectQuery, a LookupQuery and a LookupColumnsQuery.
pub record DmqlQuery : Type 0 where
  pub resource : Text
  pub class_name : Text
  pub fields : Option (List Text)
  pub criterion : Option Text
  pub limit : ℤ
  pub offset : ℤ
  pub count_only : Bool

pub record GetObjectQuery : Type 0 where
  pub resource : Text
  pub object_type : Text
  pub use_location : Bool
  pub object_keys : List Text

pub record LookupQuery : Type 0 where
  pub resource : Text
  pub lookup : Text

pub record LookupColumnsQuery : Type 0 where
  pub resource : Text
  pub class_name : Text

-- The types of query, and what the compiler throws: a RetsSqlException, or another exception.
pub data Compiled : Type 0 where
  dmql : DmqlQuery → Compiled
  get_object : GetObjectQuery → Compiled
  lookups : LookupQuery → Compiled
  lookup_columns : LookupColumnsQuery → Compiled
  other_query : Compiled
  sql_error broken_compiler : Text → Compiled

-- librets::SearchRequest and GetObjectRequest, as the driver fills them in
pub record SearchRequest : Type 0 where
  pub resource : Text
  pub class_name : Text
  pub query : Text
  pub select : Option Text
  pub count_only : Bool
  pub limit : Option ℤ
  pub offset : Option ℤ
  pub standard_names : Bool

pub record GetObjectRequest : Type 0 where
  pub resource : Text
  pub object_type : Text
  pub location : Bool
  pub wanted : List (Text × Option ℤ)
