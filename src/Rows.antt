-- ===== src/Rows.antt =====
-- go/rows.go: the rows of a query. Convert models the conversion of texts to Go values, with
-- go/datetime.go, Page the first page of results, and Stream the reading of the result file.
pub mod Columns
pub mod Convert
pub mod File
pub mod Page
pub mod Stream
