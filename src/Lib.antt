-- ===== src/Lib.antt =====
-- Course projects on processes and threads: exercises with fork, wait and pipes (the top directory
-- and project_2), three pthread programs that multiply matrices (project_3), and the thread system,
-- the synchronisation primitives and the menu of an OS/161 kernel (project_5_6).
--
-- How the parts interact. The menu splits a line into commands and starts programs as threads. The
-- thread system keeps the arrays `sleepers`, `zombies` and `joinable`, and every thread an array of
-- children; it moves threads between these and the scheduler's run queue. The semaphores, locks and
-- condition variables are loops around thread_sleep and thread_wakeup with interrupts off. The
-- matrix programs are on their own. The kernel's main file (project_2) starts these parts up and
-- shuts them down. The pipe exercise of project_2 and the fork exercises are on their own, too.
--
-- The files:
--   Prelude      library names and the lists and tests that the parts share
--   Platform     what the kernel calls and the repository does not hold: arrays, run queue,
--                allocator, interrupt level. They are the fields of a record that every definition
--                takes; `Laws` states their documented behaviour. A call that only frees memory or
--                talks to the machine goes into a log.
--   Kernel       project_5_6/thread.h, synch.h and the globals of thread.c as one record, and the
--                monad of functions over it. A failed assert, a NULL or freed pointer that is read,
--                and panic() are faults. An int is its 32-bit pattern.
--   Thread       project_5_6/thread.c and _exit.c. Switch: thread_destroy, exorcise, mi_switch,
--                thread_yield, thread_sleep. Sleep: thread_wakeup, thread_wakeone,
--                thread_hassleepers. Create: thread_create, thread_bootstrap, thread_killall,
--                thread_panic, thread_shutdown. Join: thread_join, thread_detach. Fork: thread_fork.
--                Exit: thread_exit, _exit, mi_threadstart, is_thread_running. Population says
--                when the kernel is healthy and how often a thread stands in it, Conservation and
--                Yielding are about the switches of a healthy kernel, Fairness about whose turn it
--                is. Forking and its children are about thread_fork as a whole, Attached and Halving
--                with its children about thread_exit as a whole. Wakeup, Signal, Sleeping, Burial,
--                Search, Joining, Detaching, Adoption and Exiting hold the other proofs.
--   Synch        project_5_6/synch.c. Semaphore, Lock and Cv hold the operations. Runs, Acquire
--                and Conditions are about what each run leaves, Sleepers and Waiting about lost
--                wakeups, Exclusion about the steps of several threads on one lock, Balance about
--                those on one semaphore. Calls takes the operations together as the calls that a
--                thread can make; Keeping is about the threads that they move, Wakeups about the
--                wakeups that they do not lose. Abstract is the abstract semaphore and the
--                abstract lock, Shown what the kernel shows of either; Refinement relates P and V
--                to them, Locking lock_acquire and lock_release.
--   Matrix       project_3/partA.c, partB_take2.c and partC.c. Schedule: threads as lists of
--                critical sections and their interleavings. Sum: sums over ranges.
--   Menu         project_5_6/menu.c. Interval: getinterval. Words: strtok_r and the splitting.
--                Show: showmenu. Texts: the menus and what they print; its children are about
--                reading it. Commands: the command functions. Dispatch: cmdtable and cmd_dispatch.
--                Execute: menu_execute. Session: the main loop. Tables: the menus and the command
--                table. Programs: cmd_progthread, common_prog and cmd_quit on the kernel.
--                Lines: lines as they are typed. Splitting, Lookup and Quitting hold the proofs.
--   Startup      project_2/partC.c: boot, shutdown and sys_reboot, on the thread system of
--                project_5_6. Main: kmain, the menu on that kernel. Power and Boot hold the
--                proofs.
--   Pipes        project_2/partB.c: the places that the parent, the child and the grandchild can be at,
--                and a step of each. Transfer is about one pipe, Places about where the three are
--                at the same time; ParentSteps, ChildSteps, GrandchildSteps and Ending are about
--                single steps, Liveness and Main about runs.
--   Processes    the calls of the C library that the fork exercises make, as a machine of processes.
--                Outcomes: all that the runs of a program come to.
--   Exercises    fork.c. Family: project_2/partA.c. Copies: fork-01.c, partA_fork.c, fork_text.c.
--                ExitStatus: fork_test.c. Shuffles: the orders in which the lines of two processes
--                come out.
--   Tests        a concrete platform and kernel, and the theorems applied to concrete data
--
-- A function that switches to another thread is cut at the switch: `thread_sleep` is the part up to
-- it and `thread_sleep_resumed` the part behind it; P and lock_acquire are rounds of their loops, of
-- which each ends asleep or returned (`p_start`, `p_round`, `p_resumed`). A variable that the source
-- reads before it sets it, as in thread_wakeone, is an argument, and so is what common_prog reads
-- through a pointer to a variable that is gone (`left`), and what cmd_progthread finds in the words of
-- a line that another thread may overwrite. What a command of the menu does to the rest of the kernel
-- is the argument `carry_out` of menu_execute.
--
-- In Pipes a write puts the whole message into the pipe at once, as fclose does with a message that
-- is shorter than the buffer of stdio and than a pipe; a read takes a byte at a time.
--
-- In Exercises a call of printf puts its text on the terminal as one step, as a terminal gets the
-- lines of stdio. A process takes a step whenever it can, and a fork may fail at any time. A process
-- whose parent has exited belongs to init. The machine keeps, in `forks`, whether each call of fork so
-- far has made a process. The value that fork_test.c reads is a parameter.
--
-- Fuel. A scan of an array has one more unit than the array has entries; every round either passes
-- an entry or takes one out. The loops over a command line have one more unit than the line has
-- bytes; every round takes at least one. All the runs of a fork exercise are tried with one more
-- unit than the longest of them has steps.
--
-- Two critical sections of a matrix program under its mutex do not overlap, so a thread is the list
-- of its additions in program order. What a thread reads outside of them is written by nobody then.
-- rand() is an arbitrary function from the number of the call to its result.
--
-- Not modelled: the text that the kernel and the matrix programs print, timing, md_switch and the
-- register state, address spaces and files, and what the commands of the menu call outside it.
pub mod Prelude
pub mod Platform
pub mod Kernel
pub mod Thread
pub mod Synch
pub mod Matrix
pub mod Startup
pub mod Pipes
pub mod Processes
pub mod Exercises
pub mod Menu
pub mod Tests
