-- ===== src/Lib.antt =====
-- The state machine interpreter ruFSM: an implementation of the W3C's SCXML algorithm in Rust.
--
-- The parts of the program that are modelled, and where:
--   Fsm.Collections: `List`, `OrderedSet`, `Queue` and `HashTable` of src/fsm.rs.
--   Fsm.Model: the document (`Fsm`, `State`, `Transition`), the access by id, and `nameMatch`.
--   Fsm.Tree: `isDescendant`, `getProperAncestors`, `findLCCA` and the predicates on states.
--   Fsm.Domain: `getEffectiveTargetStates`, `getTransitionDomain`, `computeExitSet`.
--   Fsm.Conflict: `removeConflictingTransitions`.
--   Fsm.Global: `Event`, `GlobalData`, and the trait `Datamodel` of src/datamodel/mod.rs as an interface.
--   Fsm.Select: `conditionMatch`, `selectEventlessTransitions`, `selectTransitions`.
--   Fsm.Entry: `computeEntrySet`, `addDescendantStatesToEnter`, `addAncestorStatesToEnter`.
--   Fsm.Step: `exitStates`, `executeTransitionContent`, `enterStates`, `isInFinalState`, `microstep`.
--   Fsm.Loop: `mainEventLoop`, with Fsm.Invoke (`invoke`), Fsm.Finish (`exitInterpreter`) and Fsm.Environment, what
--   they call.
--   Datamodel.Data: the values, `enum Data` of src/datamodel/mod.rs.
--   Datamodel.Value, Cells, Text, Operations, Equality: the same values with their sharing, on a heap of cells; `DataStore`,
--   the texts of values, the functions `operation_…` and `PartialEq`, of src/datamodel/mod.rs.
--   Expression.Token, Lexer: src/expression_engine/lexer.rs. Lexer.Strings, Operators, Numbers and Next hold the
--   functions `read_…` and `next_token_with_stop`; Lexer.Moves and Progress are about the position in the text.
--   Expression.Syntax, Parser: the expressions and src/expression_engine/parser.rs. Parser.Items is the body of
--   `parse_sub_expression`, Parser.Stack is `stack_to_expression`.
--   Expression.Eval: `execute` of src/expression_engine/expressions.rs. Eval.Access has the steps on values and
--   cells, Eval.Run the recursion.
--   Serializer: the protocol writer and reader of the binary format, src/serializer/default_protocol_*.rs: bytes,
--   numbers, texts. Serializer.Steps: calls in a sequence, and what it means that a reading carries over
--   what was written.
--   Serializer.Values: `write_data` and `read_data`, with `read_data_map` of src/serializer/fsm_reader.rs.
--   Serializer.Machine: `FsmWriter` and `FsmReader`, src/serializer/fsm_writer.rs and fsm_reader.rs.
-- The modules under each of these are named for what they prove. Fsm.Example is a small document, and the
-- modules Witness apply the theorems to concrete inputs.
--
-- A step of the interpreter selects transitions in the configuration, removes those in conflict, exits
-- states, runs the content of the transitions and enters states. What Rust mutates, the functions take and
-- return: the global data, the document where `enterStates` clears a flag in it, the containers of
-- `computeEntrySet`. A call may panic (`unwrap` on a missing id or key, `remove(0)` on an empty list), so
-- the functions return in `Run`: `ok`, `panic`, or `stuck` where the model's fuel is used up. Executable
-- content and expressions run in the datamodel, a parameter; `IsQuiet` says that it changes only its own part
-- of the global data and the internal queue.
--
-- The external queue is a list of the events that arrive; `mainEventLoop` returns where it ends, or waits for another
-- event. An interpreter need not end, so the fuel of its loops is a bound on the rounds.
--
-- Ids and numbers are natural numbers; 0 stands for no state, as in the code. `n` bounds the loops over
-- parents. In a tree, where the parent of a state comes earlier in the document and `n` is at least
-- every number of a state, that is enough: each round goes to a smaller number. `d` bounds the depth of
-- `addDescendantStatesToEnter` and of `isInFinalState`. Strings are lists of code points, with their lengths in
-- bytes of UTF-8; the encoding itself is a parameter with its laws, and so are the texts of numbers. The fuel of
-- `read_data` bounds how deep values are nested in each other: what is nested at most `d` deep needs `d`,
-- and more than the input has bytes is always enough. The capacities above which `with_capacity` panics are
-- parameters, at least 2 ^ 56; memory below them is taken to be there.
--
-- A loop of the lexer is `repeat` of a pass, with fuel for two passes more than the text has characters. The parser has
-- fuel for its loops and calls together; two units for each character and two more are enough on texts that do not
-- end in an operator that `=` may follow. Evaluation is a recursion on the expression. A cell is locked by who
-- reads or writes it; a lock that the same thread holds is waited for in vain, and the run is `stuck`. The
-- integers of 64 bits are in Common.Int: the language's `%` and the saturating operations on them. The machine's floats
-- are a record of operations (Common.Float) without laws, and the registered actions are an argument.
-- The order of a map's entries is that in which the hash map yields them.
--
-- Not modelled: `interpret`, which sets a session up before the event loop, the threads of sessions, the
-- two data models, executable content, the XML reader, event I/O, tracing; of the lexer `next_name` and `as_double`.
pub mod Common
pub mod Datamodel
pub mod Expression
pub mod Fsm
pub mod Serializer
