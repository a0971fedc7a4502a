-- ===== src/Lib.antt =====
-- mini-sql, a small SQL database in C: a line of SQL is tokenized, parsed, bound to the tables'
-- schemas and executed against b-trees of 4096-byte pages in one file.
--
-- How the program is put together. src/tokenizer.c splits a line into tokens; src/parser.c builds a
-- syntax tree from them by recursive descent; src/expression.c binds a WHERE to a schema and
-- evaluates it against a row; src/planner.c narrows the keys that a scan has to read; src/schema.c
-- lays out a table's columns and src/record.c reads and writes a row's bytes in that layout;
-- src/btree.c stores the rows, ordered by key, in the pages that src/pager.c caches, and
-- src/cursor.c and src/table.c find, insert and delete them by key. src/statement.c binds a parsed
-- statement to the tables, src/table_definition.c checks a CREATE TABLE, and src/executor.c runs the
-- result. src/catalog.c keeps the tables' definitions as rows of a table of its own, and
-- src/database.c opens a file: a new one, or one whose tables it loads from that catalog.
--
-- Which file models which part:
--   Base        lists, Boolean tests, integers and byte strings over the native numbers
--   Token       include/tokenizer.h: token types, lexical errors and tokens
--   Tokenizer   src/tokenizer.c; Blanks, Progress, Numbers and Strings hold its theorems. A C string
--               is the list of its bytes, the state is the unread rest with the position, and one
--               call of tokenizer_next is one call of the function of that name
--   Ast         include/parser.h: the syntax tree
--   Parser      src/parser.c: the state and what the rules share; Parser.Expr and Parser.Statement
--               are the rules; Fuel and Total hold the theorems. A C function that returns false
--               after setting the error returns `err` here
--   Schema      src/schema.c; Names and Layout hold its theorems
--   Record      src/record.c: a row is its payload of bytes; RoundTrip and Frame hold its theorems,
--               and LaidOut says when columns can be written one after the other
--   Expression  src/expression.c; Binding and Ordering hold its theorems. row_accepted is the test
--               in visit_matching_rows of src/executor.c
--   Statement   src/statement.c: binding a statement to a list of tables; Prepare has CREATE TABLE
--               and prepare_statement, Planned and Inserted hold its theorems; Targets
--               and Stored are about the column list and the row of an INSERT. What
--               include/statement.h's Statement holds depends on its type: Reading, Inserting, or
--               the definition of a new table
--   Planner     src/planner.c; Bounds, Sound and Exact hold its theorems
--   Pager       src/pager.c: the page cache and the free list; FreeList holds its theorems. The bytes
--               that the file held when it was opened are the parameter `disk`
--   FileHeader  src/file_header.c: page 0; Fields holds its theorems
--   Btree       src/btree.c: constants and layout, nodes, and the two searches; Search and Layout
--               hold their theorems. Cells has the loops over an array of cells, LeafNode the
--               operations on leaves, and its children Order, Lookup, Refine, Delete, Split and
--               Rebalance their theorems. A node is a record of its header fields with its cells as
--               a function of the index; memory past the cells in use holds some cell too.
--               The functions that take a Pager are actions on a Store, in which a page is a node,
--               a page of the free list or something else: Store has the pager as the b-tree sees
--               it and what every action uses; Insertion, Deletion and LeafDeletion have the
--               operations with their splits and repairs. Tree says what a search tree of pages is
--               and which rows it has, Replace what a changed leaf does to it, and RootSplit what
--               the pages are after a root leaf is split
--   Cursor      src/cursor.c; Descent is about the walk down to a leaf
--   Table       src/table.c; Contents says what a table of pages is and which rows it has, Locate
--               and Rewrite are about the leaf in which a key belongs, Parts, Shape and Split about
--               a leaf that is divided; Rows, Removal and RootLeaf hold the theorems
--   TableDefinition src/table_definition.c; Names, Keys and Accepted hold its theorem
--   Catalog     src/catalog.c; Definition computes the table that the catalog's own text defines
--   Database    src/database.c; Opened is about a file without pages
--   Executor    src/executor.c: what a statement prints is part of its result; Rows holds its theorem
--   MetaCommand src/meta_command.c: the dot commands; what they print is a value
--   Tests       runs, some of them of whole statements on a new file, and the theorems at concrete
--               inputs
--
-- Bounds and fuel. A `uint32_t` sum that can wrap keeps its `% 2 ^ 32`, and an `int32_t` is stored
-- in two's complement with its low byte first. Lines are shorter than 2^32 bytes. Each binary search
-- halves an interval, and runs here on fuel one larger than the number of cells, which Btree.Search
-- shows is enough. The parser's loops run on fuel two larger than the line is long, and its descent
-- on one level for each of the 64 that MAX_EXPRESSION_DEPTH allows and one more; Parser.Total shows
-- that both are enough. The planner's bounds are `int64_t` in C and integers here; Planner.Bounds
-- shows that they stay close to the range of an `int32_t`.
--
-- A walk from page to page, down the tree or up, runs on fuel one larger than the file has pages,
-- since it meets no page twice in a tree; Cursor.Descent shows for the descent that the height is
-- enough. A scan runs on a round for each cell that the file's pages have room for, and one more.
-- MINI_SQL_INTERNAL_NODE_MAX_KEYS, which the build chooses, is the parameter `configured`.
--
-- Not modelled: the texts of error messages (errors are values), the layout of printed lines, the
-- read-eval-print loop, the release of memory and the failure of malloc, and the writing of pages to
-- the file, which belongs to the operating system. Proofs are open for the insertions that split
-- below the root or at an internal node, for the deletions that repair the tree, lower a separator
-- or take a table's only row, and for the order of a scan along the leaves; these are modelled, and
-- Tests runs most of them. The cached pages of
-- src/pager.c and the nodes of src/btree.c are two views of a page, as bytes and as a record: that
-- the fields of a node lie in its bytes without overlap is shown of their offsets only.
pub mod Base
pub mod Schema
pub mod Record
pub mod Pager
pub mod FileHeader
pub mod Btree
pub mod Cursor
pub mod Table
pub mod TableDefinition
pub mod Catalog
pub mod Database
pub mod Executor
pub mod MetaCommand
pub mod Ast
pub mod Expression
pub mod Planner
pub mod Statement
pub mod Token
pub mod Tokenizer
pub mod Parser
mod Tests
