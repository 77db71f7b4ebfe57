-- ===== src/Lib.antt =====
-- FSMLang: a model of the parts of the FSMLang compiler that hold its data, and theorems about them.
--
-- FSMLang reads a description of a finite state machine and writes C source, or a document, for it.
-- The parser builds a machine record whose states, events and actions are `ID_INFO`s in linked
-- lists, numbers them, fills the machine's action array, counts and measures what it finds, and the
-- generators then ask for names and for the slots of the array.
--
-- Which file models what:
--   Base: tests on numbers, `unsigned` (32 bits) as a remainder, lists measured by the native
--     numbers, C strings as lists of bytes.
--   Memory: the `LIST` and `LIST_ELEMENT` records of src/list.h at addresses. A command takes a heap
--     to a result and a heap, or faults on a NULL or dangling pointer. `calloc` fails when the
--     blocks that the heap may still hand out are used up.
--   LinkedList: src/list.c, function by function. `IsList` says which cells a list has: the `next`
--     pointers lead through distinct addresses to NULL, the ordinals count up from 0, and head, tail
--     and count agree. Its children each treat one group of functions (Add, Unique, Find, Copy,
--     Move, Tail, Free); Pass, Extend and Renumber are the loops.
--   Sequence: the lists with memory forgotten, as sequences of members, which the parts below are
--     modelled over.
--   IdTable: `lookup_id`, `add_id`, `add_unique_id` of src/fsm_utils.c. What `malloc` and
--     `add_to_list` give is a parameter, `Memory`.
--   ActionArray: `populate_action_array` of src/fsm_utils.c with its four iterators, and
--     `allocateActionArray` (Allocate). The array is a
--     function of two orders; states, events and matrices are functions of addresses. Handlers,
--     Handled, Transitions, Complete and Uniform hold the invariants; Induction, Frame, Expand,
--     Iteration, Single and Backed what they share.
--   Counts: `enumerate_pid_list` and the `count_` functions of src/fsm_utils.c.
--   Density: `compute_event_and_state_density_pct` of src/fsm_utils.c; `none` is a division by zero.
--   ByIndex: the five lookups by a signed index of src/fsm_utils.c, on the heap of Memory.
--   Hungarian: `hungarianToUnderbarCaps` and `streamHungarianToUnderbarCaps` of src/ancestry.c. A
--     write past the allocated memory would give `overrun`, an `int` that overflows `overflow`. An
--     `int` is kept as its 32 bits and converted to a 64-bit `size_t` for `malloc`.
--   Ancestry: `printAncestry` and the functions about a machine's ancestors of src/fsm_utils.c.
--     What is written to the stream is returned as a text.
--   TypeNames: the functions of src/ancestry.c that make the names of types and machines, with the
--     pointers and the column widths of `struct _c_machine_data_` (src/fsm_c_common.h). Whether a
--     temporary file and memory can be had is a parameter of each call.
--   FileNames: `createFileName`, `getFileNameNoDir`, `safe_strlen` of src/fsm_utils.c, and src/rindex.c.
--     A write past the allocated memory would give `overrun`, a pointer without a value
--     `indeterminate`, an `int` that overflows `overflow`.
--   DataFields: `print_data_field` of src/fsm_utils.c with the tab level that its helper carries.
--   Events: the enumeration of events that `commonHeaderStart` of src/fsm_c_common.c writes, with
--     `print_sub_machine_events` and its iterator of src/fsm_utils.c. A machine is `MachineInfo`: what
--     the code reads of it, and its sub-machines. What is written to a stream is a text that the
--     helper collects. Enumerators describes the enumeration as a sequence, which Written and Header
--     show the text to be; Values is C's rule for the values of enumerators; Blocks, Names, Top and
--     Numbered say which values there are, Nested what happens where the rule is broken. Comment is
--     `addEventCrossReference` with Commented, Returning, Silent and Designated about it, Finder the interfaces of
--     sub-machines and the loop `findAndRunSubMachine` of the generated program.
--   EventXref: src/fsm_c_event_xref.c, the four formats as one function over a `Format`.
--   DebugNames: `writeDebugInfo` of src/fsm_c_common.c, with `print_sub_machine_event_names` of
--     src/fsm_utils.c.
--   ActionTable: `defineActionArray` of src/fsm_c.c on the array of ActionArray. Cells describes the
--     text of one element, Rendered the whole text as a table, Compiled says where an action info stands in it. Compact has the
--     enumerations and arrays of functions that a compact array refers to.
--   StateMachine: the loops that `writeOriginalFSMLoop`, `writeOriginalSubFSMLoop` and their innards
--     (src/fsm_c.c) write, as the functions that they are in the generated program. What the user
--     writes is a parameter: a function on the machine's structure for each action, for the transitions
--     and for leaving and entering a state. A fault is an element outside the array. Rounds is one
--     round, Steps the end of the loop, Stuck the loop where sub-machines are inhibited, Compiled the
--     loop on a populated array, StateReturning what `writeActionsReturnStateFSM` writes.
--   CFiles: the five files of a machine, `initCMachine`, `initCSubMachine` and `destroyCMachineData` of
--     src/fsm_c_common.c. A stream is the file that it was opened for. Opening has the opening of the files, Start
--     `initCMachine`, Phases the closing of the files one by one, Closing the whole.
--   Examples: concrete machines, lists and names.
--
-- Bounds and fuel: `iterate_list` and `free_list` run on fuel one more than the number of blocks
-- that the heap has handed out and can still hand out; a well-formed list has distinct addresses
-- among those handed out, so the fuel is enough.
-- `getFileNameNoDir` runs on fuel one more than the length of the path: each round goes on behind a
-- separator.
-- The loops of a generated machine run on fuel; with fuel above the rank of the event they return, and
-- the rank is a hypothesis about the user's actions, which may return events without end.
-- `unsigned` counters, orders and ordinals wrap at 2 ^ 32, `unsigned long` widths at 2 ^ 64. All
-- other loops are structural recursion on the list or string.
--
-- Not modelled: the grammar and the scanner, which are no C; the generators of C, HTML, RST and
-- PlantUML text (src/fsm_c.c and src/fsm_c_common.c but for what is named above,
-- src/fsm_c_event_table.c, src/fsm_c_switch_common.c, src/fsm_cswitch.c, src/fsm_html.c, src/fsm_rst.c, src/fsm_plantuml.c),
-- src/fsm_statistics.c and the opening of files, which are output; the copies of other projects
-- (src/cwalk.c, src/getopta.c); messages to the terminal and code compiled for debugging.
mod Base
pub mod Events
pub mod EventXref
pub mod DebugNames
pub mod Memory
pub mod Sequence
pub mod LinkedList
pub mod Hungarian
pub mod IdTable
pub mod ActionArray
pub mod Counts
pub mod Density
pub mod ByIndex
pub mod Ancestry
pub mod TypeNames
pub mod FileNames
pub mod DataFields
pub mod Examples
pub mod ActionTable
pub mod StateMachine
pub mod CFiles
