-- ===== src/Lib.antt =====
-- A small operating system kernel for one x86 processor with three terminals. The sources stand
-- in student-distrib/: the kernel boots, sets up paging and devices, and runs programs from a file
-- system image, at most six at a time, on terminals that share one keyboard and one display.
--
-- The parts and their modules:
--   Strings: the string and memory functions of lib.c; strlen, memset, memcpy and strncmp are those
--     that the other parts call.
--   Memory: memcpy, memmove and memset of lib.c once more, and memset_word and memset_dword, by their
--     instructions, over one memory.
--   FileSys: filesys_read.c, the image and its boot block, directory, inodes and data blocks. The
--     image is memory, a function from addresses to bytes.
--   Paging: paging.c and paging.h. An entry is a 32-bit word; a bit-field is a slice of it. The
--     module Paging.Walk has the processor's page walk, by which the results on paging are stated.
--   Screen: the terminal functions of lib.c. Display and terminals are pages of one video memory.
--   Pic: i8259.c, the masks and the bytes written to ports.
--   Rtc: rtc.c, with the clock's registers behind the two ports.
--   ScanCode: scan_code.c, the tables of characters.
--   Keyboard: keyboard.c, the line editor in the interrupt handler, and the reads and writes of a
--     terminal. It calls Screen to echo, and hands lines to terminal_read by print_buffer.
--   Process: syscall.c, the process table, the control blocks and their file descriptors. open
--     asks FileSys for the name; the C function open has the name open_file.
--   System: read and write of syscall.c, which call the handlers of the devices through the
--     descriptors, over the state of all the parts before.
--   Command: verify_file and getargs of syscall.c, which take a command line apart and keep its
--     arguments. It asks FileSys whether the file is a program.
--   Kernel: execute, halt and vidmap of syscall.c over the state of all the parts, with the task
--     state's stack, the interrupt flag and the programs' memory. Kernel.Tree has the invariant of
--     the process table, by which the results on starting and ending programs are stated.
--   Printf: printf of lib.c, on top of Strings and Screen.
--   Idt: idt_init of idt.c and the descriptors of x86_desc.h. Idt.Exceptions has the handlers of the
--     exceptions.
--   Timer: timer.c, the timer's interrupt, which gives the terminals their turns.
--   KeyboardHandler: the whole handler of keyboard.c, which starts the shells of the terminals.
--   Entry: kernel.c, the start of the kernel, which calls the initialisation of the other parts and
--     begins the first shell. Entry.Report has what it prints about the boot information, and
--     Entry.Lines its lines, as the parts of a format that Printf knows.
--   Programs: ls, cat, grep, the shell and the tests of ece391syserr.c of syscalls/, as clients of the
--     system calls of System, Process and Kernel, with the functions of ece391support.c that they use.
--     The shell is a row of steps, between which interrupts and other programs run.
--   Prelude: the numbers, tests, words and counted loops that all of them use.
--
-- A component's state is a record of its C variables, and an operation a function from the state to
-- the result and the state, with the names of the C code. A number of a machine word is a natural
-- number with the wrap-around written out; a signed comparison is made on the word. A pointer that
-- may be NULL is an Option. What a local variable holds before it is written, and where the linker
-- puts the page tables, are arguments.
--
-- Assembly. A call that leaves C has an outcome: entered for the iret into a program, resumed for a
-- jump into another kernel stack, with the registers it goes on with, and returned for a C return.
-- The registers that the code saves are an argument, a Frame.
--
-- Fuel. A loop over a string takes fuel, and none says that it ran out; the results on commands
-- give the fuel that is enough. printf needs as much as its format has parts, its strings have
-- characters and its numbers digits: entry's lines have fewer than 100. The walk over the memory
-- map needs as much as there are areas. The loops of ls and cat have rounds: one more than they
-- have reads with a result is enough. The tests of syserr print texts of fewer than 100 characters,
-- and the shell reads into a buffer of 1024. grep has two reads of a file that fits its buffer, and
-- as many rounds for the lines in the buffer as there are characters, and one more. The scrolling
-- loop has fuel for two rounds: one sets the row to 24, and the test of the second then ends the
-- loop. The timer's loop over the three terminals has three rounds: after them it is where it began,
-- so that none says that it does not end. All
-- other loops have their count from the code and are structural.
--
-- Not modelled: the assembly (the .S files) but for the test of a system call's number, the kernel's
-- tests (tests.c), and the user programs but the five above, which are demonstrations. Inline
-- assembly other than the copies and the fills stands by its effect on memory, registers and ports.
-- A terminal_read that waits is the result none: the line that ends the wait
-- comes from the interrupt handler. No pointer but NULL is checked, as in C: memory is total, and
-- an access out of an array's bounds meets its neighbour only where a theorem says so. A command
-- of more than 128 characters overruns the buffers of verify_file, which the model does not
-- follow. The control blocks hold what memory held at the boot until a process is started in them;
-- the results that need clear bitmaps there say so.
pub mod Prelude
pub mod Strings
pub mod Memory
pub mod FileSys
pub mod Paging
pub mod Screen
pub mod Printf
pub mod Pic
pub mod Rtc
pub mod ScanCode
pub mod Keyboard
pub mod Process
pub mod Command
pub mod System
pub mod Kernel
pub mod Idt
pub mod Timer
pub mod KeyboardHandler
pub mod Entry
pub mod Programs
