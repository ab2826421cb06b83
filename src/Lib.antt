-- ===== src/Lib.antt =====
-- Verification library of the JOS teaching kernel: its string routines, symbol lookup, console,
-- line input, physical memory, kernel monitor, start, formatted output and boot loader.
--
-- The parts, and the files that model them:
--   Prelude, Prelude/*   Boolean tests, lists, bits and integers that all parts share
--   Memory, Memory/*     flat memory: a function from addresses to bytes
--   Ports                the I/O ports: a parameter, since inc/x86.h is inline assembly; Strings has its
--                        insb, insw and insl over the read of one unit
--   Str/*                lib/string.c: Scan (strlen, strnlen, strchr, strfind, memfind), Copy (strcpy,
--                        strcat, strncpy, strlcpy), Compare (strcmp, strncmp, memcmp), Block (memset,
--                        memmove, memcpy; Plain has the build without inline assembly), Number (strtol)
--   Kdebug/Search/*      kern/kdebug.c: stab_binsearch over the table of inc/stab.h
--   Kdebug/Eip/*         kern/kdebug.c: debuginfo_eip
--   Console/Ring/*       kern/console.c: the input buffer, cons_intr, cons_getc, getchar
--   Console/Keyboard/*   kern/console.c: kbd_proc_data and its tables, with the codes of inc/kbdreg.h;
--                        Poll has kbd_intr over a keyboard controller
--   Console/Output/*     kern/console.c: serial_putc, lpt_putc, cga_putc, cons_putc
--   Console/Terminal/*   kern/console.c: getchar and cputchar as the console of lib/readline.c
--   Console/Init         kern/console.c: serial_init, serial_proc_data, cga_init
--   Readline/*           lib/readline.c
--   Pmap/*               kern/pmap.c, kern/kclock.c: Detect (memory sizes), Pages (the page array and
--                        its free list), Address (the address macros of inc/mmu.h, inc/types.h and
--                        kern/pmap.h), Entry (kern/entrypgdir.c, its entries in Table), Check/*
--                        (boot_alloc, mem_init and the checking functions, whose results are those
--                        of Run)
--   Descriptors/*        inc/mmu.h: the segment and gate descriptors
--   Monitor/*            kern/monitor.c: runcmd, monitor; Words, Scan, Parse and Run on the line,
--                        Commands and Backtrace on the commands, Table the kernel's table of
--                        them, Session/* monitor over readline and runcmd
--   Init/*               kern/init.c: i386_init, _panic, _warn; kern/console.c: cons_init
--   Boot/*               boot/main.c, with the headers of inc/elf.h: Segment (readseg), Start and Loads
--                        (bootmain), Disk (the controller of the disk)
--   Printf/*             lib/printfmt.c, kern/printf.c: Number (printnum), Conversions, Format
--                        (vprintfmt, printfmt), Format/Items (what a format promises), Buffer
--                        (vsnprintf, snprintf, vcprintf, cprintf), Events (what is printed by calls
--                        of cprintf)
--   Tests/*              runs, and each theorem at a concrete input
--
-- The boot loader reads the kernel from the disk; entry.S turns paging on with the tables of
-- kern/entrypgdir.c. The interrupt routines of the devices fill the input buffer; cons_getc polls
-- them and takes a character; readline edits a line of such characters and echoes them (over any
-- console in Readline, over that of kern/console.c in Console/Terminal); monitor hands the line to
-- runcmd, which calls a command; vprintfmt hands each character of its output to a function, which is
-- cputchar for the console and sprintputch for a buffer.
--
-- How the code corresponds. An operation is a function with the name that it has in the source, from
-- the state before to the state after; a loop is a function whose name ends in _loop, or has the
-- name of what the loop does. A loop without a bound of its own takes fuel and returns `none` when
-- it runs out; the theorems on such a function give the fuel that is enough: for the string
-- routines more than the length of the string, for stab_binsearch more than the size of the table,
-- for printnum as many steps as the number has bits (64), for the lists of pages more than their
-- length, for a format its length and that of its longest string argument. Addresses are plain
-- numbers that do not wrap, memory holds bytes below 256, and strings are shorter than 2^31, so
-- that lengths fit an int. The string
-- instructions of the x86 are modelled by their documented effect, since the code is built with
-- inline assembly. A call of panic is the result `none` of the conversions of addresses,
-- and a panic of its own in the checking functions. What the commands of the monitor print is the
-- list of their calls of cprintf, with their arguments; what the start prints is the list of its
-- events. A command of the monitor that does not return is the result `none`. Inputs that the C
-- leaves undefined, such as a format whose width exceeds an int, the conversion %e of the least int
-- and a digit of 17 or more for printnum (the model prints a 0), are outside the model.
--
-- stab_binsearch goes on behind an exact match with the address increased by one, and takes a stab
-- of that value for a new match; Tests/Symbols has a run on a table with such a stab.
--
-- The fuel of a check of the free list is its length and one more, that of a backtrace the number of
-- its frames and one more, that of a wait for a character the number of polls and one more, and
-- that of debuginfo_eip the size of the table and two more.
--
-- The devices behind the ports are records of named laws, each with a concrete device in Tests: the
-- disk controller (Boot/Disk), the keyboard controller (Console/Keyboard/Poll) and the console of
-- readline (Readline/Edit).
--
-- Not modelled: the instructions of inc/x86.h other than the string input, each of which is one
-- instruction of the processor; the task state and the control registers of inc/mmu.h, which the
-- program does not use; what mem_init and i386_init have behind the panic that ends mem_init.
-- Assembly and build files are outside the model. The variable arguments of printfmt, snprintf and
-- cprintf are a list of words.
pub mod Prelude
pub mod Memory
pub mod Ports
pub mod Str
pub mod Descriptors
pub mod Kdebug
pub mod Boot
pub mod Console
pub mod Readline
pub mod Pmap
pub mod Monitor
pub mod Init
pub mod Printf
pub mod Tests
