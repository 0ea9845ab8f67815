-- ===== src/Lib.antt =====
-- dr_lojekyll: models and proofs for the lexer, data flow passes and the runtime of Dr. Lojekyll.
--
-- Dr. Lojekyll compiles Datalog programs to C++ databases: Lex and Parse read the source, DataFlow
-- builds and stratifies a relational program, ControlFlow lowers it, CodeGen/CPlusPlus prints C++,
-- and the printed code stands on the headers of include/drlojekyll/Runtime. This library models
-- those headers, where the state of a running database is kept, the front of the compiler, from
-- the characters of a display to its tokens, and two passes of DataFlow: the one that finds where
-- deletions flow, and the one that orders the views by their strongly connected components.
--
-- A display imports the text of a stream and expands its tabs; a DisplayReader walks over that
-- text, and the lexer makes tokens of it, whose strings and identifiers are kept in the string
-- pool. In a database one received message batch is one epoch: the printed code nets the batch's
-- messages (NetBatch), folds signed derivations into the rows of the tables, claims rows into the
-- overdeletion and the addition set and retires them round by round, and ends the epoch with
-- Commit, which publishes the changes of presence.
--
-- Display.Position   DisplayPosition of lib/Display: Emplace and the readers of the fields
-- Display.Import     DisplayImpl of lib/Display/Display.cpp: the import of a stream, TryGetPosition
-- Display.Reader     DisplayReader: TryReadChar, UnreadChar, CurrentPosition; and the accumulate_if of
--                    lib/Lex/Lexer.cpp
-- Display.Reads      what was read from one reader to another
-- Lex.Lexeme         the enumerations of tokens
-- Lex.Token          tokens of lib/Lex/Token.cpp, with IsValid, NextPosition and ErrorPosition
-- Lex.StringPool     lib/Lex/StringPool.cpp: InternString, TryReadString, InternCode, TryReadCode
-- Lex.Words, Lex.Branches, Lex.Literals, Lex.Numbers, Lex.Lexer
--                    TryGetNextToken of lib/Lex/Lexer.cpp, a definition for each branch
-- Lex.Tiling         the tokens against the text they stand for
-- Lex.Typed          the structs that tokens are stored as
-- Lex.Spelled        identifiers against the string pool
-- Lex.Tests          runs of the lexer at concrete inputs
-- DataFlow.Differential  TrackDifferentialUpdates of lib/DataFlow/Differential.cpp: which views of a
--                    query can receive and produce deletions; in Reasons why they can
-- DataFlow.Stratify  QueryImpl::Stratify of lib/DataFlow/Stratify.cpp: the walk over the strongly
--                    connected components; in Pass the sources, the strata of the data models and the
--                    errors, and DerivationClassInto of lib/DataFlow/Query.cpp. Invariant to Rounds
--                    follow the walk from move to move, Result and Condensation say what it computes
-- DataFlow.EquivalenceSet  the data models of lib/DataFlow/EquivalenceSet.h: Find, ForceUnion,
--                    TryUnion, TrySetInductionGroup
-- DataFlow.Tests     runs of the passes
-- Util.EqualitySet   EqualitySet of lib/Util/EqualitySet.cpp
-- Util.DisjointSet   DisjointSet of lib/Util/DisjointSet.cpp: Find, Union, UnionInto, Reparent
-- Util.Tests         runs of them
-- Runtime.Hashed     the row and key structs that the printed code supplies (a parameter): Hash()
--                    and operator==, an equivalence that is finer than equal hashes
-- Runtime.Run        how an operation ends: a result, std::abort(), or lost, which is a walk that
--                    does not end or an access outside of an array
-- Runtime.Probe      the open-addressing loop that RowStore, Index and StateCellStore share
-- Runtime.IdSlots    the slot array of ids: FindWithHash, InsertSlot and Rehash
-- Runtime.RowStore   RowStore: Find, FindOrAdd, CompactRowsInPlace
-- Runtime.Counters   the packed derivation counters: CountNr, CountR, Pack, Total
-- Runtime.Flags      RowFlags
-- Runtime.DiffTable  DiffTable: Fold, FoldAt, AddExplicit, SubExplicit, TryClaimDel, TryClaimAdd,
--                    RetireDel, RetireAdd, Touch, GrowTo, the membership reads, Commit, and (in
--                    Compact) NeedsCompaction and CompactDead
-- Runtime.Index      Index: Add, First, Next, Clear
-- Runtime.MonotoneTable  Table: TryAdd, InI, NetAdded, Seal
-- Runtime.NetBatch   NetBatch of Vec.h
-- Runtime.Members    membership in a list, up to operator==
-- Runtime.StateCell  StateCellStore: FindOrAddGroup, Fold, Emit, Old, Seal, occupancy; in Policies
--                    the algebra policies Invertible and Recompute over a reduction (a parameter)
-- Runtime.Tests      runs at concrete inputs
--
-- A Vec is a list; the parallel vectors `counts` and `flags` of a DiffTable are one list of cells,
-- since every operation extends and truncates both. Pointers to slot arrays are lists too, with the
-- capacity as their length, so a null array is the empty list. Row ids and the live count are
-- 32-bit numbers with their wrap-around written out; the counters are signed 32-bit numbers in the
-- two halves of a 64-bit word, written with the bit operations of the source. The flag byte is a
-- record of Booleans.
--
-- A reader stands on the whole text that its display imports, and knows whether the stream
-- failed; the source imports the text as it is read. A character is its byte; letters and digits
-- are those of ASCII. The lexer's loops read a character in each round, so they have as many
-- rounds as characters are left. A token is one of the structs of lib/Lex/Token.h with its fields
-- cut to their widths, not the 128 bits that the structs share; a load of a field that the struct
-- does not have is 0.
--
-- The views of a query are a list in the order of ForEachView, with what the pass reads of each.
-- The rounds of TrackDifferentialUpdates are bounded by the number of flags and one; the walk of
-- Stratify has a round for each edge and each view. Its states are functions of the view, with none
-- for kUnvisited and kNoStratum, and its indices and strata are unbounded, where the source has
-- unsigned ones of 32 bits with ~0u for none; a view that is not live has no place in the list. Its
-- canonical equivalence set is given by its id.
--
-- The recursion of Find in DisjointSet has as many levels as there were calls, since a call makes
-- a path to a root longer by one link at most.
--
-- Loops over an array are structural recursion. The probe loop has no bound in the source; the
-- model gives it as many rounds as the array has slots, after which it would be back where it began.
-- The enumeration of an Index chain has as many rounds as the table has rows.
--
-- A member count of a StateCellStore that leaves 32 bits is undefined behaviour and counts as lost.
-- The multiplicities of Recompute are unbounded integers, and the config columns of aggregates are
-- left out.
--
-- Not modelled: allocation and its failure, the benchmark counters, the debug assertions (a release
-- build drops them), streams and the display manager, the parser, the rest of the data flow and the
-- code generator between the lexer and the runtime.
pub mod DataFlow
pub mod Display
pub mod Lex
pub mod Prelude
pub mod Runtime
pub mod Util
