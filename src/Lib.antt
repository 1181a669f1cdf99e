-- ===== src/Lib.antt =====
-- Rave-OS: the filesystem, the shell, the Forth interpreter, the console widgets and the scheduler
-- of the kernel, its synthesiser and keyboard, and the windows of the second kernel. Paths are from the repository's root.
--
-- Fs models kernel/fs/fs.c on top of an ATA drive. Fs/Disk has the state (the sectors, the static
-- variables `sb` and `mounted`, and the faults that the drive has in store), the monad in which a
-- return value -1 is `fail`, and the reads and writes of a sector; Fs/Layout has the packed records
-- `fs_superblock` and `fs_entry` as bytes and the directory tables; Fs/Names and Fs/Path have the
-- string functions; Fs/Walk has the walk along a path, `fs_init` and `alloc_sectors`; Fs/Files has
-- `fs_create_dir`, `fs_create_file`, `fs_append_file` and `fs_read_file`; Fs/Manage has `fs_delete`,
-- `fs_rename`, `fs_move` and `fs_copy_file`; Fs/Listing has `fs_list_dir` and `fs_bootstrap_dirs`;
-- Fs/Selftest has `fs_selftest`.
-- A call keeps the name of its C function without the `fs_`. Fs/Calls has the calls as data and
-- their histories. The drive is hardware: each transfer takes the next fault of a list (it works,
-- it is refused, or it moves its data and reports an error), and theorems quantify over the list.
-- A sector number is a natural number; the sums that fs.c computes on accepted spans are below 2048.
--
-- Shell models kernel/gui/shell.c on top of Fs: Shell/Line has the words of a line, Shell/Paths the
-- resolution of a path argument (`shell_resolve`, `shell_case_correct`), and Shell/Commands the
-- commands and `shell_eval_line`, which gives the shell, the output and the filesystem that it
-- leaves. The rounds of `shell_case_correct` have fuel, one unit for each character of the path, and
-- running out of it is an end of its own.
--
-- Forth models kernel/forth/forth.c and forth.h. Forth/Numbers has the 32-bit cells, as bit patterns
-- below 2 ^ 32, with printing and reading; Forth/Vm has `struct forth_vm` and its stacks;
-- Forth/Words has the primitive words and their table; Forth/Exec has `forth_exec`; Forth/Compile
-- has `handle_compile_token`, a function for each control word; Forth/Eval has
-- `handle_immediate_token` and `forth_eval_line`. The hooks into the kernel
-- (kernel/forth/forth_hooks.h) are recorded as a list of calls. A Forth loop need not end, so a run
-- has fuel, a unit for each instruction, and running out of it is an outcome of its own; so is a read
-- outside the code, the dictionary, the primitives or the return stack (`crashed`), which the C code
-- would make unchecked. An access outside the memory cells, a patch outside the code or a NUL written
-- outside the output buffer sets `fault`, and a stack, table or string that outgrows its array shows as
-- a list that is longer than the array.
--
-- Console models the widgets of kernel/gui that hold text: Console/Input is console_input.c,
-- Console/History console_history.c, Console/Output console_output.c, Console/Editor editor.c and
-- Console/TextField textfield.c; Console/Buffer has the loops that they share. The shell feeds them
-- keys and lines. Console/Typing and Console/Editing have the calls on an input line and on an
-- editor as data, the assignments of the kernel to the editor's focus among them.
--
-- Scheduler models kernel/sched/scheduler.c: the four slots, their reservation, activation, closing
-- and the tick. What a program does with its slice is a parameter.
--
-- Desktop models parts of v2/core/kernel: Desktop/Windows is the window table, kernel_window.c,
-- Desktop/Overlay kernel_overlay.c and Desktop/Router kernel_router.c, whose polling takes the
-- samples of the input layer as arguments and records the events that it sends. A task, a queue or a
-- canvas is a number and NULL is 0. A C `int` of a coordinate or an order is an unbounded integer.
-- The walk that composes a frame has fuel, a unit for each round.
--
-- Synth models kernel/audio/synth.c: Synth/Tables has its tables, Synth/Voice `struct synth_voice`, the
-- setters, the gates and the envelope, Synth/Filter the shared filter, and Synth/Render the
-- oscillators, `synth_render_half` and the calls as data. A read or a write outside an array and a
-- division by zero are a result of their own (`none`). The phase wraps around at 2 ^ 32; the sums of the mixer and
-- of the filter are unbounded integers, and so is the count of silent samples, an `int` that would
-- overflow only after 27 hours of unbroken silence.
--
-- Audio models v2/core/kernel/kernel_audio.c on top of Synth (v2/core/audio/synth.c is a copy of
-- kernel/audio/synth.c without `synth_arp_off`): Audio/Commands has the commands and `apply`,
-- Audio/Ring the ring of 16 commands with its 32-bit counters, and Audio/Mixer the audio callback
-- `kernel_audio_drain_and_render`, the master volume and the count of active voices. The two threads
-- meet at the ring: a call of either is one step. The drain has fuel, a unit for each slot; a read outside
-- the ring, a write outside the owners and the end of the fuel are the result `none`.
--
-- Keyboard models kernel/drivers/keyboard.c: Keyboard/Scancodes has the decoder of scancodes, and
-- Keyboard/Driver the ring that the interrupt fills and `keyboard_poll_char`. An interrupt and a poll
-- are one step each. Polling has fuel, a unit for each scancode that waits and one more.
--
-- Not modelled: drawing and hit tests (pure output and geometry), the other drivers and the interrupt and
-- paging code of kernel/ (hardware), the windows and menus of kernel/gui, kernel/kernel.c,
-- and the rest of the second kernel under v2/.
pub mod Prelude
pub mod Fs
pub mod Forth
pub mod Console
pub mod Desktop
pub mod Shell
pub mod Synth
pub mod Audio
pub mod Keyboard
pub mod Scheduler
