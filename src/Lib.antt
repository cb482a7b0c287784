-- ===== src/Lib.antt =====
-- The verification library of MyMadKv: the Rust tools around its key-value store.
--
-- The program. A key-value client speaks a protocol of text lines on its standard input and
-- output: one line for a call (PUT, SWAP, GET, SCAN, DELETE, STOP), one line for a response, or
-- several for a scan. `refcli` is the reference client, over a map in memory. The tools of
-- `runner` start clients as child processes and talk to them through that protocol: `fuzzer` calls
-- several clients at random and checks that the responses are consistent with one order of the
-- updates, and `bencher` translates the output of the YCSB driver into calls and measures them.
-- `service` starts a server or a manager and waits for it.
--
-- The files, and what they model.
--   * Prelude: library names passed on, Boolean tests and lists over the native numbers.
--   * Text, Collections: what the code uses of Rust's `String`, `BTreeMap` and `HashMap`, with the
--     laws. A text is the list of its Unicode scalar values. A `HashMap` is an association list in
--     the order in which an iteration would meet the entries.
--   * Runner/Error: runner/src/error.rs, with `Result`, whose third case stands for a loop that
--     does not end within its fuel.
--   * Runner/Ioapi: runner/src/ioapi.rs. The file itself has `KvCall`, `KvResp`, `into_write` and
--     `update_info`; Reader has `read_next_line` and `from_read` over a reader, which is the text
--     still to come and the failure that may come at its end; Reading and Ending are about them.
--   * Refcli: refcli/src/main.rs, from `parse_input_call` and `handle_kv_call` to the loop of
--     `main`, which is `run_client`. Calls, Responses, Store and Session are about them.
--   * Fuzzer/History: runner/src/bin/fuzzer/history.rs, every operation of `History`. Checks,
--     Accepts, Scans and Verdicts say what `check_call` accepts; Linear compares that with a
--     linearization, over the moments of Instants; Invariant and Preserved have the well-
--     formedness of a history; Trimming, Alike, Bounds and Untrimmed show what `apply_update` may
--     drop.
--   * Fuzzer/Stats, Fuzzer/Random: `Stats` of runner/src/bin/fuzzer/main.rs, and
--     runner/src/bin/fuzzer/random.rs, with Calls and Draws about them.
--   * Fuzzer/Loop: `fuzz_test` of runner/src/bin/fuzzer/main.rs. Protocol is about the responses
--     that the loop hands to the history, Rounds and Safe about one round, Ends
--     about the loop, Trace about what it and the clients say to each other, Harvests about the
--     responses that it hears, and Whole and Passed about a whole run.
--     Sound says what the responses of a linearizable store are; its Rows, Knows, Steps, Coming and
--     Runs follow the history over them up to its NoAlarm. Breaks and Alarms are about what ends the
--     loop with a failed check, and NoAlarm about a whole run that does. Flights counts the clients
--     in flight; Flying and Liveness are about when a round, and a run, comes to an end.
--   * Fuzzer/Outside: what the fuzz tester takes from elsewhere, as records of operations with the
--     laws that their documentation states: `rand`, `bit_vec`, and the client processes.
--     Fuzzer/Samples has a concrete instance of each.
--   * Fuzzer/Main: the checks of the arguments, the pool of keys and the verdict of `main`; Verdicts
--     and Settles are about what a verdict stands for, and that there is one.
--   * Runner/Proc: runner/src/proc.rs: the driver thread, and the handles of clients and servers.
--   * Bencher/Ycsb: the translation of a line in runner/src/bin/bencher/ycsb.rs; ScanEnd is about
--     the end of a scan. Bencher/Stats: `Stats` of runner/src/bin/bencher/main.rs, with Merging
--     and Latency. A floating-point number is an element of an ordered type.
--   * Bencher/Feeder: the feeder thread of ycsb.rs. Script is what the lines of an output stand for;
--     Lines, Outcome and Failing are about the loop, Afterwards about what it leaves, and Whole,
--     Delivered and Keys about what the thread returns.
--   * Bencher/Launch: `exec` and `wait` of ycsb.rs, and `ycsb_bench` and `main` of main.rs. Panics
--     says when they panic; Drivers is about one driver, Scripts, Merges and Measures about a phase,
--     Keys about the keys handed on, and Main about the whole.
--   * Service: runner/src/bin/service/main.rs, with Behaves about it.
--   * A Tests module has the theorems at concrete inputs.
--
-- Loops and their bounds. `read_next_line` and the loops of `from_read` take fuel, which is one
-- more than the number of pending characters: each round but one at the end of the file consumes
-- a character; so does the loop of the feeder. The loop of the reference client takes a round for
-- each line. `fuzz_test` takes two rounds for each operation and one more: each round calls or
-- harvests one operation. The draw of a client takes fuel of its own, since a source of random
-- values may never hit; a run comes to an end if the draws hit every client within it. All other
-- loops are recursions on the data that they go through.
--
-- Machine integers. The number of operations of a fuzz test is a product modulo 2 ^ 64, and the
-- subtraction from the count of a YCSB scan wraps as in a release build; a count read from a line
-- is refused from 2 ^ 64 on. Time stamps and counters, which go up by one in a round, do not wrap.
--
-- What is not modelled. Printing, sleeping, the parsing of arguments and the starting of processes
-- are input and output; what becomes of a command that is started is a parameter. `debug_assert!`
-- is left out, as in a release build. The store itself (kvstore/in_memory_kvstore) is written in
-- C++, and the summary (sumgen) in Python.
pub mod Prelude
pub mod Text
pub mod Collections
pub mod Runner
pub mod Refcli
pub mod Fuzzer
pub mod Bencher
pub mod Service
