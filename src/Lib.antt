-- ===== src/Lib.antt =====
-- A model of parts of the Rane processing language: the lexer, the parser, the canonical writer and the
-- compiler context, the stable ids, the action plan, the x64 emitter that turns a procedure of the plan into machine code, and the loader that patches the
-- code's relocations.
--
-- The parts and their files:
-- - actionplan.hpp is Plan.antt: the arena of values, and procedures of blocks of actions. The
--   emitter reads it and does not change it.
-- - rane_emitter.hpp is X64.antt (`namespace enc`) and Emitter.antt with its children.
--   Emitter.antt has the state of `struct Emitter`, the frame, the patches and the labels;
--   Emitter/Temps.antt is `TempAnalysis`; Emitter/Frame.antt is `compute_frame_layout`;
--   Emitter/Value.antt is `emit_value`, one function for each case of its switch; Emitter/Action.antt
--   is `emit_action`; Emitter/Proc.antt is `emit_proc`, which lays out the frame, emits the blocks and
--   patches the jumps. An `assert` that fails and an `at` out of range are values of `Fault`.
-- - rane_loader_patcher_win.cpp is Loader.antt (the tables), Loader/Parse.antt (`View` and
--   `parse_execmeta`), Loader/Lookup.antt and Loader/Patch.antt (`apply_relocs`) and Loader/Resolver.antt
--   (`loader_demo`). Exceptions are values of `LoadFault`. The text that `apply_relocs` writes to is a
--   state that outlives an exception: Loader/Patching.antt has its reads, writes and throws.
-- - Rane_resolver.cpp, its tree and `struct Parser`, are Syntax.antt and Parser.antt with its children:
--   Parser/Expressions.antt by binding power, Parser/Statements.antt and Parser/Blocks.antt for
--   `parse_stmt` and blocks, Parser/Unit.antt for `parse_unit`. The parser reads the tokens that the
--   lexer gives. `die` is a value of `ParseFault`, and so are a read outside the token vector and too
--   little fuel. A `Block*` is a buffer of the vector `block_arena` and an index in it. The vector goes
--   to a new buffer where its library says so, a parameter of the parser (`reallocates`), and then the
--   pointers into the old one dangle.
--   Parser/Grammar.antt is no code of the repository: it is the grammar that expressions are held against,
--   with the powers of the parser's table; Parser/LevelTests.antt compares them with grammar.ebnf.
-- - Rane_resolver.cpp, `struct CanonWriter`, is Canon.antt: the text of expressions, statements, blocks and
--   procedures. A block is written through its pointer into the arena; the read of one that dangles, which
--   the source does not notice, is the fault `dangling`.
-- - Rane_resolver.cpp, `CiamCtx` and `emit_exec_meta`, are Ciam.antt: the capabilities and guards of the
--   context and the binary exec meta. Ciam/Meta.antt has a reader of the bytes, which is no code of the
--   repository.
-- - Rane_resolver.cpp begins with the lexer of the surface language, which is Lexer.antt (tokens and
--   the state) and Lexer/Scan.antt (the loops of `struct Lexer`, up to `lex_all`). `die` is a value of
--   `LexFault`; `lex_all` runs on one more unit of fuel than the text has bytes.
-- - ciam_ids.h is Ids.antt: the hashes, the stable keys, the comparison of the candidates and the
--   numbering by rank, over a sort that is a parameter. `assign_block_ids_sorted` is not modelled.
-- - Cpu.antt and its children are no code of the repository. They are a decoder and a machine for the
--   instructions that the emitter writes, after the processor's manual, and the emitter is held against
--   them. Emitter/Meaning.antt says what a value means, with no reference to code.
-- - Base.antt and its children are the helpers that the parts share.
--
-- Numbers: a w-bit integer is a natural number, and its wrap-around is written out (`% 2 ^ w`); a
-- signed number is its two's complement pattern. Offsets and ids are such numbers. The recursion of
-- `emit_value` and of `temp_depth` over the arena runs on fuel: an arena that lists children before
-- parents needs one more than the number of the value, and the theorem on values says that the fuel of
-- the evaluator is enough. The functions of the parser call each other on fuel, three units for each
-- token that is left and three more. The canonical writer has a unit of fuel for each block of the
-- arena. `ILayoutProvider`, the resolver of the loader and the layout of types, which are the
-- user's, and when a vector moves, which is its library's, are parameters here.
--
-- Not modelled: desugaring and code generation in Rane_resolver.cpp, the declarations of ciam_engine.h,
-- rane_lexpath_contract.h and rane_ast.h, and the archived compiler. The evaluator answers none on
-- fields, array elements, calls, bit operators, division and shifts, and the machine's memory is in
-- cells of 8 bytes.
pub mod Base
pub mod Canon
pub mod Ciam
pub mod Cpu
pub mod Emitter
pub mod Ids
pub mod Lexer
pub mod Loader
pub mod Parser
pub mod Plan
pub mod Syntax
pub mod X64
