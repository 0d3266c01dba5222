-- ===== src/Lib.antt =====
-- athenadriver, a database/sql driver for AWS Athena written in Go.
--
-- The driver's user opens a connection with a configuration and runs statements on it. For a
-- statement, the connection binds the arguments, resolves the workgroup, starts the query at the
-- Athena service, polls until it is over, and gives the rows of its result, which are read from
-- the result file while that file is saved to disk.
--
--   Base          lists, options, Boolean tests and byte texts, over native numbers
--   Errors        go/errors.go, and `Outcome`: a result, an error, a panic, or still waiting
--   Strings       what the driver uses of Go's package strings
--   Decimal       what it uses of strconv: the decimal texts of 64-bit numbers
--   GoTime        what it uses of package time: the fields of a UTC time, and their texts
--   Url           url.Values, as an association list, with the encoding and the parsing of a query
--   Escape        go/utils.go: escapeBytesBackslash, reserveBuffer, FormatString, FormatBytes
--   Values        driver.Value, namedValueToValue and valueToNamedValue of go/utils.go
--   Params        go/connection.go: interpolateParams and buildExecutionParams
--   ServiceLimit  go/servicelimitoverride.go, and isQueryTimeOut of go/utils.go
--   Workgroup     go/wg.go, go/wgtag.go and go/wgconfig.go; Pretty is the text of a configuration
--   Config        go/config.go: Flags has the Boolean settings, Groups the workgroup and the tags,
--                 Text the DSN: NewConfig, Stringify and SafeStringify
--   Sdk           what go/connector.go uses of the AWS SDK
--   Connector     go/connector.go and go/driver.go: the AWS configuration of a connection
--   Trace         go/trace.go: the tracer, and what it logs
--   Cost          go/cost.go, and getCost and printCost of go/utils.go
--   Rows          go/rows.go: Convert has convertRecord, with go/datetime.go, Page fetchNextPage on
--                 the first page, Columns the columns, File openResults with its goroutine, Next
--                 and Close, and Stream the same with the readers alone
--   Query         go/connection.go: QueryContext, over a parameter for the Athena client; Exec has
--                 ExecContext, Ping, Prepare, Close and go/statement.go, Commands and Group the
--                 theorems on pseudo commands and workgroups, Wait, Finish and Whole those on the
--                 wait and on a whole run
--   Csv           go/utils.go: ColsToCSV, RowsToCSV and ColsRowsToCSV; Reader is the format itself
--   Table         go/utils.go: the printers of tables
--   Tidy          go/utils.go: GetTableNamesInQuery and GetTidySQL; each regular expression is a
--                 matcher, which gives the length of its match at a place
--   Mock          go/utils.go: random rows and pages
--   Configfx      lib/configfx: the configuration of athenareader, from its file and its flags
--   Athenareader  lib/queryfx and athenareader/main.go: the DSN it opens, and the loop over queries
--   Tests         the theorems at concrete inputs
--
-- A definition has the name of its Go function in snake case. Texts are lists of bytes. A method
-- that changes its receiver returns the new one, with the error if it has one. A slice that is
-- written to has its backing array, so that a write out of range has no result. A run of
-- QueryContext gives the calls of the service in order and the outcome; the client's answers are
-- a parameter, and so are the environment of the process, the text of a float64, the text of a
-- workgroup's configuration where it is stored, what reflection sees of it, the parsing of floats,
-- zones and times, what net/url writes and reads in front of a query, the AWS SDK, math/rand,
-- float64, the file system, and database/sql. A run of Rows is a list of calls of Next, calls of
-- Close and steps of the download goroutine, in the order in which they get the mutex.
--
-- Loops over lists recurse on the list. `interpolate_loop` has the query's length as fuel, which
-- is enough since each round drops a byte at least, and the digits of a number n have the fuel
-- n + 1. The wait of QueryContext consumes the client's list of polls; where that list ends
-- before the query does, the outcome is `unfinished`. An instant counts from the year -292277022399, like the absolute
-- days of package time, so that years before the year 1 are instants as well.
--
-- Not modelled: the AWS clients, the metrics, the parser of SQL, which is a parameter of Tidy, the
-- drawing of tables by go-pretty, the usage text and the fx modules of athenareader, a cancelled
-- context of the caller while rows are read, and the programs in examples. The packages strings,
-- strconv, time, regexp, net/url and encoding/csv of Go's library are modelled by their documented
-- behaviour as far as the driver uses them.
pub mod Base
pub mod Escape
pub mod Errors
pub mod Strings
pub mod Decimal
pub mod GoTime
pub mod Values
pub mod Params
pub mod Url
pub mod ServiceLimit
pub mod Workgroup
pub mod Config
pub mod Rows
pub mod Query
pub mod Sdk
pub mod Connector
pub mod Mock
pub mod Csv
pub mod Table
pub mod Tidy
pub mod Trace
pub mod Cost
pub mod Configfx
pub mod Athenareader
pub mod Tests
