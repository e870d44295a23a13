-- ===== src/Lib.antt =====
-- Verification of parts of the hydrui client, an interface for Hydrus in TypeScript. Paths are
-- from the root of the repository, and CLIENT stands for web/hydrui-client/src.
--
-- The client filters and sorts files by expressions that a user types. CLIENT/utils/script/lex.ts
-- makes tokens of the text, parse.ts makes a syntax tree of the tokens, ast.ts has the trees and
-- prints them, and resolver.ts has the name spaces in which a tree is evaluated. Searches are
-- kept in CLIENT/store/searchStore.ts, the jobs of Hydrus in popupStore.ts, messages to the user
-- in toastStore.ts, and the page that is shown with the files that it loads in pageStore.ts.
-- Independent of these, CLIENT/utils/sqlite reads the tables of SQLite databases, and
-- CLIENT/file/psd/packbits.ts decompresses the image data of Photoshop files.
--
-- The files and what they model:
--
-- - Base: tests, lists and texts on native numbers, shared by all. A text is a list of UTF-16
--   code units.
-- - Script.Token and Script.Scanner: TokenType, Token and the class Scanner of lex.ts. A scanner
--   is its position p and the source from there on. The children of Script.Scanner have the laws:
--   Trivia and Comments for white space, Lexeme for the texts of each type of token, Scanned and
--   Printed for one token, Scan for scan as a whole, Ends and Total for the end of its loops,
--   Underscore for names that begin with one.
-- - Script.Ast and Script.Ast.Source: the classes of ast.ts, and their source getters.
--   Script.Json: JSON.parse and JSON.stringify of a string, written out from the language's
--   standard.
-- - Script.Parser: the fields of the class Parser of parse.ts, advance, accept and expect, and
--   the monad that its methods run in: a state to a result with a state, an error, or no end.
--   Script.Parser.Expr has the expressions, Script.Parser.Grammar the statements, parseExpression
--   and parseScript. Moves, Total, ExprTotal and GrammarTotal follow the parser over the tokens,
--   Returns and Whole say what comes out, Literals is about strings.
-- - Script.Resolver: StandardResolver, ScopeResolver and SpeculativeResolver of resolver.ts as
--   one data type, since resolve writes to maps of the nesting.
-- - Script.Suggest: fuzzySuggest of suggest.ts, with trim, startsWith and indexOf of the
--   language.
-- - Store.Search: the state and the actions of searchStore.ts, and performSearch in its two
--   halves around the await. Store.Search.Steps is the event loop: what can happen next, in any
--   order. Consistent, Invariant and Order are about it.
-- - Store.Popup and Store.Toast: the stores of popupStore.ts and toastStore.ts. The intervals
--   that the browser runs are part of the popup store's state, and the time of a job is a number
--   of ticks of 2^-1074 seconds, of which every finite float is a whole number. Their children
--   have the laws.
-- - Store.Page: the state of pageStore.ts. Chunks has the chunks of updateWithFileIds and the
--   maps of its files, Load the load from one await to the next, Controller what its callers have
--   of it, View the actions on the files in view, Virtual those on page keys, selections and
--   virtual pages, and Update updatePageContents, setPage and fetchPages. Runs is the step
--   relation of a load; Indexed, Chunked, Slots, Front, Complete, Demands, Finished, Ends,
--   Realized, Stale, Shown, Renewed, Keys and Files are about them.
-- - Sqlite: web/hydrui-client/src/utils/sqlite. View has SQLiteDataView, Record the records, Tree
--   the pages, cells and overflow chains, Table the scan of a table, and Database
--   findSchemaTables and SQLiteParser. Varint, Columns, Rows, Leaf, Header, Overflow, Cells,
--   Stored, Scan, Schema and Parsed are about them. The levels that a scan is given bound the
--   depth of the tree, since the source follows pages that point at each other until its stack
--   ends.
-- - Psd.PackBits: decompressRLE and decompressRLERows, over lists of bytes for the typed arrays.
--   Its children have the laws for packets, for any input, and for rows.
-- - Script.Tests, Script.ParserTests, Script.ResolverTests, Store.Tests, Store.PopupTests,
--   Store.PageTests, Sqlite.Tests, Sqlite.DatabaseTests and Psd.Tests run the definitions at
--   concrete inputs and apply the theorems there.
--
-- Fuel. The two loops of the scanner that skip a comment do not stop at the end of the source, so
-- they take fuel; one more than the units that are left is enough wherever the comment is closed.
-- Each nested call of the parser follows a token that it accepts, so one more than the units of
-- the source is enough depth. LOOP_LIMIT, 5000, is the code's own: its loops count down from 5001
-- rounds and fail behind them, as the code throws.
--
-- Parameters. Code that is not in the repository is an argument where it is used: the text of a
-- number in ast.ts, the values and variables that the resolvers keep, the text that TextDecoder
-- makes of bytes, and the whole number that a float is, if it is one. The clock, random numbers
-- and the persistence of the stores are left out.
--
-- Not modelled: the evaluator and the values of utils/script, the Photoshop parser apart from its
-- decompression, the other stores, the API client, the components, and the server in Go.
pub mod Base
pub mod Script
pub mod Psd
pub mod Sqlite
pub mod Store
