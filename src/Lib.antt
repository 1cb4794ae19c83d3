-- ===== src/Lib.antt =====
-- A verification development for the solver library SANKHYA: the parts of its C++ code that decide
-- what is read, which engine runs, when a solve stops and what is believed of its answer.
--
-- The program reads a model (`src/io`), selects an engine for its class and size
-- (`src/solver_engine`, `src/core/engine_selection.cpp`), runs it under limits and a callback
-- (`src/core/resource_limits.cpp`, `src/core/stop_controller.hpp`), and holds the answer to guards
-- before it is passed on (`src/core/solve.cpp`). The search for integer solutions keeps a pool of
-- solutions and a store of learned conflicts (`src/mip`); an infeasible model is explained by an
-- irreducible subsystem (`src/core/iis.cpp`). Matrices are the compressed columns of `src/la/sparse.cpp`,
-- nonlinear terms are expression graphs (`src/nlp`), and a search is saved in checkpoints
-- (`src/mip/checkpoint.cpp`).
--
-- The files, and the code that each models:
--
--   Text              src/io/token.hpp
--   Mps               src/io/mps_parser.hpp and mps_reader.cpp: the state, the lookups, record_entry;
--                     below it Split (split, the sections), Rows, Columns, Vectors (RHS and RANGES),
--                     Bounds (src/io/mps_bounds.cpp), Quadratic, Finish (finish_rows, finish_model)
--                     and Parse (parse, read_mps). Triplets and Valid are the invariant and its proof.
--   Status            SolveStatus, LimitReason, claims_a_point and status_for
--   Status/Guard      the two guards of src/core/solve.cpp; Verdict is what they show
--   Limits            src/core/resource_limits.cpp; Read is its theorem
--   Limits/Stop       src/core/stop_controller.hpp and include/sankhya/solve_control.hpp
--   Pool              src/mip/solution_pool.cpp; Keys, Members, Evict, Valid and Report are its theorems
--   Conflict          src/mip/conflict.cpp: canonical, check_conflict, minimize_conflict; Store is the
--                     ConflictStore
--   Options           src/util/options.cpp; Assign is what an assignment from text does
--   Deterministic     src/core/deterministic_mode.cpp
--   Engine            src/solver_engine: Registry, Builtin (the wrappers), Rule (the rule table of
--                     src/core/engine_selection.cpp), Select (the selector), Dispatch (solve)
--   Iis               src/core/iis.cpp
--   Sparse            src/la/sparse.cpp, SparseMatrix; Counting is the counting sort that finalize and
--                     transpose share, Multiply the products and CsrView, Vector the SparseVector with
--                     its operations replayed on a plain vector. Sums and Sorting say what the sorted
--                     runs add up to; Frozen, Build, Finalize, Offers, Rows and Transpose are theorems.
--   Checkpoint        src/mip/checkpoint.cpp: the document; Read and Write are the two directions,
--                     Write/Atomic, Content, Plain and Roundtrip are theorems
--   Nlp               src/nlp/expression.cpp: the graph, interning and the tape; Build the constructions,
--                     Evaluate the forward sweep of src/nlp/derivatives.cpp. Valid, Intern, Graph,
--                     Operations, Products and Constructions are the invariant and its proof; Tape, Meaning
--                     and Reference below Evaluate hold the sweep against the recursive meaning of a node,
--                     Domain against the domains of the operations.
--   Gpu               src/gpu/multi_device.cpp; Cover is its theorem
--   Prelude           shared names, numbers, lists, sorting, results that may fail, and doubles
--   Tests             runs of the definitions and of the theorems at concrete inputs
--
-- Doubles. A `double` is a parameter with its constants, arithmetic and comparisons
-- (Prelude/Double). The theorems assume of it at most the laws of IEEE 754 comparison, NaN included;
-- no law of rounded arithmetic is assumed. The laws are met by `Extended`, the integers with the two
-- infinities and NaN, on which the tests run.
--
-- Texts and integers. A text is its list of bytes. Indices and counters are natural numbers; the
-- casts to 32 bits in the keys of matrix entries are written out. Maps and sets are lists of their
-- members, searched as the code searches them.
--
-- Loops. Most are structural recursion on a list. The eviction loop of the pool runs on fuel, one
-- unit for each member, which is enough because each turn removes one. The minimisation of a conflict
-- stops at the code's own budget. The walk of a tape is structural recursion on the number of the node;
-- the recursive meaning of a node runs on any number above its own, which is enough because children
-- come before their parents.
--
-- Parameters. std::strtod, strtoll, llround, the table of the options, Model::validate, the underlying algorithms, the solver on a
-- sub-model, the check of a certificate, the device probe and the progress callback are arguments. So are
-- what std::sort makes of the entries of a column, the functions of nlohmann::json and fmt that a
-- checkpoint uses, the success of the calls on its files, and pow, exp, log, sqrt and floor.
-- An engine that is not built in is taken to refuse a class that it does not accept, as its interface
-- asks.
--
-- Not modelled: the logger and the texts of messages, which are constructors where a caller can tell
-- them apart; the numerical kernels (simplex, factorizations, interior point, PDHG, convex QP,
-- presolve, cuts), whose results the guards hold to tolerances; branch and bound itself; the LP reader
-- and the writers; derivatives, ranges and curvature of nonlinear expressions; the C interface, the
-- command line, the device kernels and the bindings.
pub mod Prelude
pub mod Text
pub mod Mps
pub mod Status
pub mod Limits
pub mod Pool
pub mod Conflict
pub mod Options
pub mod Deterministic
pub mod Engine
pub mod Iis
pub mod Sparse
pub mod Checkpoint
pub mod Nlp
pub mod Gpu
pub mod Tests
