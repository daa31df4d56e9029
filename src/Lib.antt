-- ===== src/Lib.antt =====
-- The C core of schemesh, a Unix shell and Lisp REPL on Chez Scheme: conversions of text and bytes,
-- the command line, the calls of POSIX by which the shell starts and watches processes, and the Scheme
-- code that reads what they return.
--
-- Parts and files:
-- - Base, with Base/Lists, Base/Int, Base/Bits and Base/Text: names that all modules share, lists and
--   signed integers over the native numbers, C's masks as arithmetic.
-- - Scheme: the Chez Scheme values that C functions take and return (`ptr`). A function that mutates a
--   string or a bytevector returns its new contents.
-- - Utf8b (containers/containers.c): one UTF-8b sequence. `codepoint_to_utf8b` gives the bytes that
--   c_codepoint_to_utf8b writes, and none where it returns 0; `utf8b_to_codepoint` is
--   c_utf8b_to_codepoint on the octets left in the buffer. A codepoint 0xDC80 to 0xDCFF stands for a
--   byte that is not UTF-8.
-- - Strings (containers/containers.c): the loops over strings and buffers, and
--   schemesh_Sstring_utf8b. The loops that consume octets recur on a fuel that is the number of
--   octets; each round consumes one at least. Strings/Spec is the plain recursion that they implement.
-- - Bytevector (containers/containers.c): compare, fill, hash and index. Words are those of a 64-bit
--   machine, with their wrap-around.
-- - CommandLine (main.c): parse_command_line, run_files_and_strings, and in CommandLine/Main the
--   function main, whose calls of Scheme are answered by a script.
-- - Posix: the state of a process and its system calls. The kernel is a parameter, which answers each
--   call from a state of its own; the calls made are listed. Posix/Redirect, Posix/Spawn and
--   Posix/Wait model posix/posix.c, and Posix/Signals models posix/signal.h. Spawn uses Redirect and
--   Signals in the child. Values are those of Linux. Posix/Redirect/Table is the abstract view of
--   redirections, a table of open files, with Posix/Redirect/Refines and Frame about what changes in it;
--   Posix/Redirect/Files is a kernel that keeps one, and Posix/Spawn/Files is about a child's table.
-- - Posix/JobControl and Posix/Fd (posix/posix.c): the foreground process group and job control, and
--   file descriptors. Their loops take fuel: rounds of being suspended, and calls that may be
--   interrupted.
-- - Tty (posix/posix.c): raw mode, the way back, and the size of the terminal. The terminal is a
--   parameter with tcgetattr and tcsetattr; Tty/Restore states what is relied on.
-- - Directory (posix/posix.c): file types, and c_directory_list over the entries that readdir gives.
-- - Posix/Keeps: which of the state of a process the operations keep, by a rule for each way in which
--   code is put together.
-- - Startup (posix/posix.c, posix/signal.h): c_tty_init, c_tty_quit and what is set up for signals, from
--   schemesh_register_c_functions_posix to schemesh_quit.
-- - Session: the life of the process between the two, as a step relation with a step for each
--   registered function.
-- - Paths (posix/posix.c): the working directory, files by name, hosts, users and other processes. The
--   sizes of the buffers of c_get_cwd double in 64 bits, so that 55 of them are enough.
-- - Errors (posix/posix.c): the error numbers and texts for Scheme code.
-- - Countdown (utils/countdown.c, posix/signal.h): the pause that a SIGTSTP suspends. The fuel is the
--   number of naps: one more than the signals that arrive.
-- - Shell (shell/shell.c, eval.c, shell/env.ss): the environment, the library and the boot files.
-- - Driver (test/test.c): the program that compiles the library and runs the tests. Scheme answers by a
--   script; the sums of the counters are those of unsigned long.
-- - JobStatus (posix/status.ss, posix/signal.ss, shell/scheduler.ss): the status of a job, the tables of
--   signal names, and in JobStatus/Wait the exit of a process with a status and what its parent reads
--   from c_pid_wait. JobStatus/Survives is about the two together.
-- - ByteSpan (containers/bytespan.ss): a range of bytes that grows at both ends, in a bytevector whose
--   unused bytes may be anything. ByteSpan/Spec has the plain sequences that it implements, with an
--   operation on them for each one that changes a span; ByteSpan/Whole uses the fill of Bytevector.
-- - Wire (wire/wire.ss, wire/get.ss, wire/vector.ss): data as bytes. Wire/Data writes and reads data in
--   data, and Wire/Message puts the length in front. The fuel of the reader is the number of the bytes:
--   each call in a call has a tag less.
--
-- Not modelled: Smake_string, the file system and the kernel are parameters; allocation succeeds
-- unless a parameter says otherwise; texts printed by main.c and utils/countdown.c are left out or
-- constructors. Of the wire format, numbers other than integers of 32 bits, symbols, vectors,
-- hashtables and records are left out. Writing behind the end of a string or bytevector, which C
-- leaves undefined, changes nothing in the model. Threads and the calls of pthreads, the benchmark
-- of utils/ and all Scheme sources but those named above are left out.
pub mod Base
pub mod ByteSpan
pub mod Bytevector
pub mod CommandLine
pub mod Countdown
pub mod Directory
pub mod Driver
pub mod Errors
pub mod JobStatus
pub mod Paths
pub mod Posix
pub mod Scheme
pub mod Session
pub mod Shell
pub mod Startup
pub mod Strings
pub mod Tty
pub mod Utf8b
pub mod Wire
