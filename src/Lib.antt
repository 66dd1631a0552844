-- ===== src/Lib.antt =====
-- ezRETS, an ODBC driver for RETS real estate servers: a model of its driver core and what it does.
--
-- The program. A client calls ODBC functions; each goes through an entry object (project/driver/src/
-- OdbcEntry.cpp) to a handle. A statement (RetsSTMT.cpp) has a query with a result set
-- (ResultSet.cpp), whose columns (Column.cpp) the client binds to its memory. SQLFetch moves to the
-- next row and hands each bound column its text; SQLGetData hands one column's text to the client in
-- pieces. A column prepares the text (lookups, separators, bind offsets from Descriptors.cpp) and
-- gives it to a data translator (DataTranslator.cpp), which finds the worker for the C type
-- (TranslationWorkers.cpp), and the worker writes to the client's buffer. Handles keep errors for
-- the client (AbstractHandle.cpp). The view of the server's metadata (MetadataView.cpp) names
-- resources, classes and tables. Statements belong to a connection (RetsDBC.cpp), which has a data
-- source (project/common/src/DataSource.cpp), reads its settings from a connection string and from
-- the ini files that the setup program writes, asks librets for a session with them, logs in and
-- makes the view. Connections belong to an environment (RetsENV.cpp).
--
-- The files.
--   Base, Map        shared names, lists, texts and integers; std::map by its entries
--   Memory           the client's memory: buffers byte by byte, integer cells whole, 0 is NULL
--   Platform         boost and the C++ library, as parameters
--   Librets          the objects of librets that the driver reads, by what their getters return
--   Odbc             type codes, return codes, sizes; Odbc.Names is getTypeName (GetTypeName.cpp)
--   Utils            copyString (project/driver/src/utils.cpp), proved in Utils.Copy
--   Stream           DataStreamInfo (DataStreamInfo.cpp)
--   Translation      Workers, Numeric and Long are the workers, Translator the two translators;
--                    Pieces, Numeric.Decoding, Types, Nulls, Dates and Results are proofs
--   DataSource       the settings; Keys has their names, Strings the texts of librets' enumerations,
--                    Connection the connection string, Ini the ini files, Session the session that
--                    is asked for; Connection.RoundTrip and Ini.RoundTrip are proofs
--   Handle           AbstractHandle and Error; Fields is SQLGetDiagField; Records and Lengths are
--                    proofs
--   Descriptors      the descriptors and their fields (Descriptors.cpp)
--   Column           Column, FauxColumn and RetsColumn, proved in Column.Moved
--   OnDemand         what OnDemandResultSet and OnDemandObjectResultSet ask of librets
--   ResultSet        the four kinds of result set
--   Query            the queries and their result sets; Create makes a query of a statement, Execute
--                    runs it
--   Stmt             SQLBindCol, SQLFetch and SQLGetData of RetsSTMT, and OdbcEntry::operator();
--                    Attributes has SQLGetStmtAttr and SQLSetStmtAttr, Shape has SQLDescribeCol, the
--                    counts, SQLFetchScroll and SQLExtendedFetch, ColAttribute has SQLColAttribute,
--                    Queries has SQLPrepare, SQLExecute and SQLExecDirect, Catalogues the catalogue
--                    calls; Loop is a client that fetches to the end, and Fetching, Streaming, Objects,
--                    Bounds, Executing, Selecting, Refusing, Texts, Binding, Reading, Entry,
--                    Attributes.RoundTrip, Shape.Answers, Loads and Views are proofs
--   MetadataView     the view; Names is the naming part, Loading and Names.RoundTrip are proofs
--   Catalogue        the queries of the catalogue functions: Tables, Columns, Keys (SQLPrimaryKeys,
--                    SQLSpecialColumns, SQLStatistics), Types; Widths and Unknown are proofs
--   Dbc              a connection: its statements, Login for SQLConnect, SQLDriverConnect and
--                    SQLDisconnect, Attributes for SQLGetConnectAttr, Info for SQLGetInfo,
--                    Diagnostics for SQLGetDiagField; Soundness, Tame, Connecting, Output, Saved
--                    and InfoText are proofs
--   Env              an environment (RetsENV.cpp, SQLFreeEnv.cpp) and the calls on its connections;
--                    Asking has the calls of a statement that read the view of its connection,
--                    Reachable the steps of a client and the invariant; Answers, Kept, Closing,
--                    Handles and Attributes are proofs
--   NotImplemented   NotImplemented.cpp
--   Setup            the setup program (project/setup/src): the validators; Dialog is SetupDialog, Config
--                    is Setup and ConfigDSN; Shown, Opening, Reopened and Attributes are proofs
--   Examples         data for tests, and each theorem at concrete input
--
-- The correspondence. A C++ object is a record, a method a function that takes the object and the
-- client's memory and returns both; names are those of the source in lower case with underscores. A
-- pointer of the client is an address. A write through NULL is recorded as a fault of the memory;
-- SQLDescribeCol, SQLGetDiagRec and SQLError, which end there, end as `crashed` or as `none`. An
-- exception is a value of the outcome, and what a handler does with it is a function by clauses. A
-- call through a null object pointer or past the end of the rows ends as `crashed`. A std::string is
-- the list of its bytes, and an iterator over the rows is an index. The handles of an environment
-- are known by their addresses; a librets session is the list of the calls made on it, and a
-- parameter of the model tells how the server ends each. A client's step is a call of the
-- environment, of a connection, or of a statement; the calls of a statement that do not read the
-- view (SQLFetch, SQLGetData, SQLBindCol and the like) are one step that may change anything of the
-- statement but its query, and the calls that change only errors and the client's memory
-- (SQLGetInfo, SQLGetDiagRec and the like) are one step too. The ODBC installer is a parameter too,
-- with its state; a client's step finds the ini files in any state, since other programs write them.
-- Sizes are those of a 64-bit build: SQLLEN and size_t have 64 bits, int and SQLINTEGER 32, with the
-- wrap-around written out. A column number is not cut to 16 bits where getDataPtr takes it as an
-- SQLSMALLINT, which matters from column 32768 on.
--
-- Fuel. A client that fetches until SQL_NO_DATA is the one loop without a bound in the data; it has
-- fuel, and one call more than there are rows is shown to be enough.
--
-- Not modelled: logging; in the steps of a client, a call of a statement whose connection has no
-- session; what a query prints; the C wrappers that only pass a call on; the conversion of a
-- client's string by its length or its terminator; the layout of the setup program's windows; the
-- programs that install the driver and the examples. wxWidgets' choice control and SQLValidDSN are
-- parameters; its validators are called in the order in which the controls are made. librets is a
-- parameter: its compiler from SQL, its session by what the server answers to a request, the rows of
-- a reply by what HasNext and GetString give, and the objects of a response. What boost does to a
-- text (trim, split, casts, regular expressions) is a parameter; where a theorem needs a property of
-- one it says so.
pub mod Base
pub mod Memory
pub mod Utils
pub mod Odbc
pub mod Platform
pub mod Stream
pub mod Translation
pub mod Map
pub mod Librets
pub mod MetadataView
pub mod DataSource
pub mod Handle
pub mod Descriptors
pub mod Column
pub mod OnDemand
pub mod ResultSet
pub mod Setup
pub mod Query
pub mod Stmt
pub mod Catalogue
pub mod Dbc
pub mod Env
pub mod NotImplemented
mod Examples
