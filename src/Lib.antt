-- ===== src/Lib.antt =====
-- Models of RewindOS, a cooperative operating system for an STM32F7 board that checkpoints its tasks
-- to an SD card, and theorems about them. The code is C; paths are from the repository's root.
--
-- The parts, and the files that model them:
-- Base: numbers, lists and bits. Ring: the window of a circular buffer, which the event queues,
--   the log and the UART share.
-- Event (include/event.h and the functions `eq_*` of src/scheduler/scheduler.c): the circular
--   queue of events that every active object has. Event.Fifo and Event.Run: its specification as a
--   bounded list.
-- Sched (src/scheduler/scheduler.c, include/scheduler.h, include/task_spec.h): the table of the
--   active objects with its ready bitmap. Sched.Pick has `highest_ready_prio` and `pick_ready_rr`,
--   Sched.Run the loop `sched_run`, and Sched.Inv the invariant that the calls keep: the bit of
--   a task is set exactly where an event waits in its queue. Sched.Register, Sched.Calls, Sched.Serve
--   and Sched.Rounds have the proofs. Sched.Race is the posts and the loop with interrupts in their
--   midst; Sched.Race.Kept and Sched.Race.NoPanic have what still holds, Sched.Race.Lost what does not.
-- Log (src/common_io/log.c): the ring that holds the output of background commands, and the
--   printing of numbers. Log.Keep: what the ring holds.
-- Parse (src/common_io/parse.c): `streq`, `tokenize`, `parse_u32`. Parse.Words has the splitting,
--   Parse.Numbers reads back what Log prints.
-- Bump (src/allocators/bump.c): the allocator. Bump.Blocks: the blocks that it hands out.
-- Restore (src/kernel/restore_registry.c, src/kernel/restore_loader.c and their headers): the table
--   of task descriptors, and the loader that applies the regions of a checkpoint. Restore.Treated
--   says what becomes of a region; Restore.Found, Restore.Treated.Regions and Restore.Applied have the proofs.
-- Uart (src/drivers/uart/uart_async.c, include/uart_async.h): the transmit and receive rings of the
--   serial line. Uart.Irq is the interrupt handler, Uart.Calls the calls, Uart.Init the set-up with
--   memory from Bump; Uart.Rings, Uart.Ready and Uart.Order have the proofs. The scheduler that the
--   handler posts events to is that of Sched.
-- Media (include/sd.h): the SD card as a record of operations with laws, which the disk code takes as
--   a parameter; Media.Words and Media.Checksum have the words and checksums of the formats.
-- Disk (src/common_io/rwos_disk.c, include/rwos_disk.h): the partition table and its two copies.
--   Disk.Table and Disk.Calls are the code; Disk.Image, Disk.Crash, Disk.Update, Disk.Start and
--   Disk.Format have the proofs.
-- Shell (src/common_io/lineio_async.c, include/lineio_async.h): the line editor with its history.
--   Shell.Keys is what a received byte does. The loops that look for the end of a string run 127
--   rounds at most, as the code's do. Shell.Bounds, Shell.Safe and Shell.Bytes have the bounds,
--   Shell.History and Shell.Recall the history, Shell.Lines and Shell.Submit the lines. Shell.Blocking
--   is the boot image's editor (src/common_io/lineio.c), and Shell.Agree and Shell.Rounds compare the two.
-- Journal (src/common_io/journal.c, include/journal.h): the journal of inputs in a ring of blocks.
--   Journal.Calls has the scan, the records and the captures, Journal.Replay the replay.
--   Journal.Block is the format of a record, Journal.Newest and Journal.Ring the scan, Journal.Append
--   a new record, Journal.Checked the captures with
--   the panic written out, Journal.Pending the buffer of bytes, Journal.Frozen and
--   Journal.Typed the effect of the replay.
-- Handoff (src/common_io/rewind_restore.c, include/rewind_restore.h): the words through which the boot
--   image tells the main image what was restored.
-- Rwfs (src/common_io/rwfs.c, include/rwfs.h): the file system. Rwfs.Mount finds or formats the region,
--   Rwfs.Files writes a file, Rwfs.Reads reads and lists. Rwfs.Names, Rwfs.Marker, Rwfs.Entries and
--   Rwfs.Supers have the formats, Rwfs.Payload and Rwfs.Record the blocks of a file, Rwfs.Index,
--   Rwfs.Find and Rwfs.Mounted the index in memory, Rwfs.Steps, Rwfs.Commit, Rwfs.Write and
--   Rwfs.RoundTrip what a write does, Rwfs.ReadBack the calls together, Rwfs.Format a format, and
--   Rwfs.Total that the calls return.
-- Snake (src/scheduler/snake_task.c, include/snake_task.h): the snake game. Snake.Play has the moves and
--   the keys, Snake.Task what the scheduler and the checkpoints call. Snake.Body and Snake.Kept
--   have what a valid state is, Snake.Events that every event keeps it, Snake.Food the
--   place of the food, and Snake.Saved a checkpoint and its restore.
--
-- How the code corresponds: a function of C that updates an object by a pointer is a function from
-- the old value to the status and the new value, under the name that it has in C. An enumeration
-- of result codes is a data type with the codes as constructors. Machine words are natural numbers
-- with the wrap-around written out where the code can reach it. Interrupts are masked in the
-- operations of the event queues and of the rings, so each of these is one step, and an interleaving
-- is a list of steps. The updates of the scheduler's ready bitmap are not masked: the calls and the
-- rounds of Sched and Sched.Run are those that no interrupt comes into, and Sched.Race has posts
-- and rounds with the posts of interrupts in their midst. A test of a pointer against null stands in a model where the pointer can be null, as an
-- option; it has no counterpart where the model passes a value.
--
-- Parameters: the functions behind the tasks' dispatch pointers and the idle hook are arguments of
-- the loop in Sched.Run. They may keep a state of their own and make any calls of the scheduler. The
-- functions behind the pointers of a task descriptor are arguments of the loader in Restore.Loader.
-- The driver of the SD card works on the registers of a peripheral: it is a record of operations with
-- laws (Media), and that every block can be read, or that a half-written block does not parse, are
-- named hypotheses where a theorem needs them. The terminal is an argument of the journal's replay.
--
-- Loops of C with a fixed bound are recursions on the rounds left, which start at that bound; loops
-- over strings are recursions on the string. No loop needs fuel beyond the
-- bound that the code has, but those over the content of a file: their fuel is one more than its length,
-- and each round takes at least a byte.
--
-- Not modelled: the access to the peripherals (clock, pins, interrupt controller, SD
-- registers), start-up and the jump between the two images, the panic screen, the terminals'
-- printing, and the picture that the snake game draws. The format of the checkpoints and the
-- other application tasks are not modelled either.
pub mod Base
pub mod Ring
pub mod Event
pub mod Sched
pub mod Log
pub mod Parse
pub mod Bump
pub mod Restore
pub mod Uart
pub mod Media
pub mod Disk
pub mod Shell
pub mod Journal
pub mod Handoff
pub mod Rwfs
pub mod Snake
