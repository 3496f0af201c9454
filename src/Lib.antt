-- ===== src/Lib.antt =====
-- sakura-slemu: a region emulator for LSL scripts. The program loads compiled scripts (.lslbc), runs
-- their event handlers in a tree-walking interpreter, and drives them from a file of commands.
--
-- The parts, and the files that model them:
--
--   Base, Double     What the parts share: lists and tests over the native numbers, integers with the
--                    wrap-around of `int` and `long long`, C strings as lists of bytes (strcmp,
--                    strstr, strtoll, "%lld"). `double` is a record of operations, a parameter of
--                    everything that computes with it.
--   Syntax           The tree of src/slemu.h, with the tags of src/loader.c as constructors.
--   Loader           src/loader.c. Rdr is the byte reader, Nodes read_expr and read_stmt, Load
--                    program_load. Writer and WriteProgram are a specification: the file of a
--                    program. Correct and Fuel hold the theorems, RoundTrip…, Size the steps.
--   Value            src/value.c: sv_truthy, sv_equal, sv_to_string.
--   Vm               src/vm.c. State is the frame stack, Binary eval_binary, coerce and do_cast, Eval
--                    vm_eval, Exec vm_exec, and Machine ties the two together. Logic shows, once, that
--                    every run has each property that its actions have; Scopes, World use it. Fuel
--                    compares runs on different fuel.
--   Region           src/region.c and src/dialog.c. State has the records, Avatars and Dialogs their
--                    operations, Queue the event queues and the routing of messages, Dispatch the
--                    start of a script, one event and a change of state, Loop region_run. Balances,
--                    Delivery, Menus and Progress hold theorems.
--   Commands         src/commands.c: Lines the text of commands and the chat log, Actions one function
--                    for each command, Pump commands_pump. Money and Counters hold theorems.
--   Volume           src/volume.c: Economy the balances in economy.txt, LinksetData the files of lsd/.
--                    Files and Persistence hold theorems.
--   Http             src/http.c: the fixtures; Request llHTTPRequest. Answers holds theorems.
--   Config           src/config.c: config_load. Directives holds theorems.
--   Events           src/events.c: the lines of --json-events, a `SideEffect` for each function of
--                    the emitter. OneLine holds theorems.
--   Builtins         src/builtins.c. Args is how a built-in reads its arguments; Strings, Lists,
--                    ListText, Search, Sort and Encoding are the built-ins on values; Listens and
--                    Effects the ones on the script and the region; Constants, Stubs and Table the
--                    constants, the built-ins that only print, and the lookup by name. Sublists,
--                    Substrings, Splitting, InBounds, Hearing and the modules below Sort, Encoding,
--                    Effects and Hosts hold theorems; Hosts is on the table as a whole.
--   Examples         A small program and a small region on which the theorems are run.
--
-- How the state corresponds: a `Region` is the struct with its scripts in order; a pointer to a script
-- is its place. The interpreter's state `Vm` has the frames, the globals and pending_state of the
-- running script, and the world, which is the region and the script's place in it; Dispatch puts them
-- back when the handler ends. To the interpreter a built-in is a parameter: an action on that state
-- which may evaluate expressions; Builtins.Table gives the ones of the program. A built-in that changes
-- the region is a function of the script's place, the script, the arguments and the region. An action
-- ends with a value, in undefined behaviour of the source (`fault`), or without fuel (`no_fuel`). NULL
-- is a constructor or an option.
--
-- Bounds and fuel: program_load starts with more fuel than the file has bytes, which is enough
-- (Loader.Fuel). An evaluation need not end, since a script may call itself without bound: `machine`
-- takes fuel for the nesting of calls. Loops have the
-- bound of the source, 1000000 rounds. The main loop takes the number of its rounds; with a limit of
-- steps, the limit is enough (Region.Progress.Ends).
--
-- Not modelled: the built-ins on libm, the clock, hashes and JSON, llResetScript, and the places of
-- llHTTPRequest and llListRandomize in the table, which are a parameter of Builtins.Table; the command
-- line, the debugger, and the output but for the lines of --json-events: which lines a built-in prints
-- is not part of the model of the built-in. Memory is not modelled: values are copied and freed by the
-- source where the model has nothing to do, and allocation does not fail. The clock, the random keys
-- and numbers and the requests by curl are parameters.
pub mod Base
pub mod Double
pub mod Value
pub mod Syntax
pub mod Loader
pub mod Vm
pub mod Region
pub mod Builtins
pub mod Commands
pub mod Volume
pub mod Http
pub mod Config
pub mod Events
pub mod Examples
