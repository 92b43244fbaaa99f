-- ===== src/Lib.antt =====
-- Laboratory programs on processes, threads and files under Linux, in C. Each directory LabN is
-- one program or a few that belong together; there is no library that they share, but some
-- functions are copied from one to the next.
--
-- Parts and files:
-- - Message.antt: Lab5/functions.h and Lab5/functions.c, the messages. `generate_message` is
--   `generateMessage`, `read_data` is `readData`; Message/Generate.antt has the proofs.
-- - Ring.antt: the array loops that both queues of Lab5 have word for word, and the list of the
--   messages in a circular buffer. Ring/Loops.antt and Ring/Window.antt say what they do slot by slot.
-- - CondQueue.antt: Lab5/lab5_2.c, the queue with a mutex and condition variables. `work_producer`
--   and `work_consumer` are the critical sections of `workProducer` and `workConsumer`, `increm_size`
--   and `discr_size` are `incremSize` and `discrSize`. CondQueue/Steps.antt and CondQueue/Resize.antt
--   treat one section at a time, CondQueue/Refine.antt runs of them, against an abstract queue.
-- - SemQueue.antt: Lab5/lab5_1.c, the queue with a mutex and two semaphores. `add_message` and
--   `get_message` are the sections under the mutex; `System` adds the threads that have passed a
--   semaphore and wait for the mutex, and a `discrSize` that waits with the mutex in its hands.
--   SemQueue/Invariant.antt counts its messages, which no variable of the program does, and so sees
--   its buffer as that of CondQueue; SemQueue/Runs.antt treats runs, SemQueue/Resize.antt resizing at
--   the wrong time.
-- - Commands.antt: `main`, `createProducer`, `createConsumer` and `destroyThread` of Lab5/lab5_2.c,
--   the tables of threads; Commands/Stacks.antt does the same on stacks, and Commands/Pools.antt compares
--   the two.
-- - ExternalSort.antt: Lab6/main.c. `merge`, `merge_all`, `last_merge`, `find_next_free_block` and
--   `compare_index_s` have the names of the source. ExternalSort/Threads.antt is the sorting phase of
--   `sort_thread`, one move of one thread at a time; ExternalSort/MergePhase.antt its merge phase, one
--   merge of one thread at a time; ExternalSort/Chunks.antt the checks and the loop of `main`;
--   ExternalSort/Main.antt a chunk and the whole file. ExternalSort/Ints.antt is about its `int`s.
-- - IndexFile.antt: Lab6/createIndexFile.c and Lab6/readBinaryFile.c, with Lab6/main.c on a file of
--   bytes between them; IndexFile/Written.antt and IndexFile/Pipeline.antt have the proofs.
-- - Supervisor.antt: Lab3/lab3.c, the parent that starts, stops and signals child processes;
--   Supervisor/Interrupts.antt has its handlers and what they find in the middle of a round,
--   Supervisor/Children.antt the names and the list of the children.
--   Statistics.antt: Lab3/child.c, the child, with signals between any two of its stores. Family.antt
--   puts both together: a signal waits at a child until it takes it. Family/Quiet.antt treats one
--   child, Family/Prior.antt, Family/Arrivals.antt and Family/Target.antt the command p.
-- - Environment.antt: Lab2/functions.c, of which Lab3/functions.c is a copy: `pars_env` is `parsEnv`.
-- - ChildPrograms.antt: Lab2/lab2.c and Lab2/childProgramm.c, a parent and the children that it starts
--   with an environment; ChildPrograms/Inherited.antt follows a variable from one to the other.
-- - RecordFile.antt: Lab7/main.c, the editor of a file of records under record locks. `print_all_file`,
--   `get_record_numb`, `modify_record` and `save_record` are the functions of these names, `step` one
--   round of the loop of `main`. RecordFile/Desk.antt has several users on one file.
-- - StudentFile.antt: Lab7/createFile.c and Lab7/readFile.c, and the start of the editor, on the bytes
--   of a file; StudentFile/Written.antt, StudentFile/Lines.antt and
--   StudentFile/Edited.antt have the proofs.
-- - FileServer.antt: Lab8/server.c, the thread of one client: `serve` is a round of `waitConnection`,
--   with `change_directory` and `send_directory_listing`. FileServer/Strings.antt is about the string
--   functions, FileServer/Serving.antt about the shape of the answers, FileServer/Directory.antt about
--   paths. FileServer/Connection.antt is the start of the sockets of both sides, by the results of its
--   calls, and the text of a time. FileServer/Clients.antt is the process with the threads of all clients, with an absolute
--   start directory in FileServer/Clients/Apart.antt, FileServer/Clients/Replies.antt,
--   FileServer/Clients/Alone.antt and FileServer/Clients/Started.antt, and with what they share in FileServer/Clients/Shared.antt.
-- - FileClient.antt: Lab8/client.c, and the two programs together: `main_round` is a round of `main`
--   with its answer, `connect` the start, `dialog` the loop. FileClient/Requests.antt compares how the
--   two sides read a line, FileClient/Answers.antt and FileClient/Dialog.antt keep them in step,
--   FileClient/Rounds.antt, FileClient/Directory.antt and FileClient/Faults.antt treat single requests.
-- - DirectoryWalk.antt: Lab1/Lab1.c, the walk over a directory: `dirwalk_stdout` is `dirwalkStdout`, `run`
--   is `main`. DirectoryWalk/Trees.antt has the trees with which DirectoryWalk/Report.antt and
--   DirectoryWalk/Program.antt compare it; DirectoryWalk/Endless.antt shows where it does not end.
-- - SharedQueue.antt: Lab4/lab4Main.c, producers and consumers in processes with the queue in shared
--   memory, one event at a time; SharedQueue/Filled.antt treats runs of them. SharedQueue/Mutex.antt has
--   the section of a producer store by store: SharedQueue/Mutex/Sections.antt,
--   SharedQueue/Mutex/Owner.antt and SharedQueue/Mutex/Exclusive.antt without signals,
--   SharedQueue/Mutex/Broken.antt with one.
--   SharedQueue/Parent.antt is the parent process, and SharedQueue/Parent/Tables.antt compares its
--   tables with stacks.
-- - Common.antt: Boolean tests, C arrays as lists, numbers as bytes, how a program ends, and the names
--   of the libraries.
--
-- How state is modelled: a record holds the variables of a program, and an operation gives the new
-- record. Output, signals and locks are values (`Effect`, `Line`), in the order of the calls.
-- Threads run in the order of a list of events; a section under a mutex is one event, but for
-- SharedQueue/Mutex.antt, which has the signals that break into one in Lab4/lab4Main.c. A wait that cannot go on is `none`. A file that programs hand to each other
-- is the list of its bytes.
--
-- Bounds and fuel: `merge_rounds` halves its number of blocks, so it has that number as fuel;
-- `chunk_loop` has fuel, one unit for a chunk, and may need more than any, as the program may not
-- end; `dirwalk_stdout` has the depth of its calls as fuel, for which the depth of the tree is
-- enough; `load_records` has the number of bytes, of which a round takes some. All other loops are
-- structural. The hash of a message, the semester of a record, and the sizes in the checks of
-- Lab6/main.c wrap around at their width. The offsets of blocks in Lab6/main.c are `int`s, of which
-- an overflow is undefined: a thread is `overflowed` then, and a merge phase `none`. The other numbers
-- are counters far from their bounds and have none.
--
-- Parameters: `rand`, the memory that a local variable finds, `malloc`, `snprintf`, `scanf`,
-- `qsort`, `fork`, `scandir`, `lstat`, `getopt_long`, `getenv`, `strftime`, `chdir`, `wait`,
-- `pthread_create`, `fcntl`, the clock and the order of doubles are not code of the repository. What
-- is used of `qsort` and of the order are the records `IsQsort` and `IsOrder` of ExternalSort/Order.antt, and of
-- the file system the record `IsRooted` of FileServer/Clients/Apart.antt.
--
-- Not modelled: Lab5/test.cpp is no part of a program. Of Lab4 the copied bytes are missing, which
-- nothing reads. Of Lab8 a read that takes other than what one send has sent is missing. Failing
-- system calls are modelled where the text above names their results.
pub mod Common
pub mod Message
pub mod Environment
pub mod Commands
pub mod Ring
pub mod SemQueue
pub mod CondQueue
pub mod ExternalSort
pub mod Supervisor
pub mod Statistics
pub mod RecordFile
pub mod FileServer
pub mod FileClient
pub mod DirectoryWalk
pub mod SharedQueue
pub mod ChildPrograms
pub mod IndexFile
pub mod StudentFile
pub mod Family
