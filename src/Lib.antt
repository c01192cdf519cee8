-- ===== src/Lib.antt =====
-- hzOS, a small 64-bit kernel with a shell and a window manager, written in C. This library models
-- its core logic and proves it correct; the sources are named by their paths in the repository.
--
-- The parts and where they are modelled:
-- - Base: numbers, tests, lists, signed integers and machine words that all parts share.
-- - Heap models the kernel heap, src/lib/memory.c. Its state is the bump pointer, the start, the
--   total size and the list of blocks with address, size and free flag. The links of the list are
--   the order of the model's list. `carve`, `replace` and `bump` are the branches of kmalloc.
--   The contents of the blocks are not part of the state, and a write of a header over other data
--   is not seen. Heap/Valid has the invariant, Heap/Alloc and Heap/Release what kmalloc and kfree
--   do, Heap/Limits the alignment and the wrap-around at 2^64, Heap/Zeroed kmalloc_z on the bytes of
--   Memory.
-- - Process models the process table and the round-robin scheduler, src/core/process.c, with the
--   register frames of src/core/isr.h in a memory from addresses to frames. It calls kmalloc_a of
--   Heap for a stack. The CR3 register is a field of the state. The searches of the table run for
--   32 entries, the size of the table, as in the code. Process/Pick, Process/Fair and
--   Process/Create hold the proofs; Process/Load models process_load_and_execute with Elf.
-- - Fs models the in-memory file system, src/fs/filesystem.c. A pointer to a node is an index
--   into the list of nodes, NULL is none; nodes are never freed. The walk over the
--   siblings has the number of nodes as fuel, which is enough in a well-formed file system, where
--   every chain of siblings is without repetition. The allocations of kmalloc are taken to give
--   fresh memory. Fs/Session has fs_init, fs_list, fs_read and fs_chdir; fs_read takes what ext2 gives
--   as an argument. Fs/Chain to Fs/Store treat the chains, Fs/Find the paths,
--   Fs/Tree, Fs/RoundTrip, Fs/Write, Fs/LongName and Fs/ReadBack what the operations do, Fs/Reach
--   every state that is reached from fs_init.
-- - Calculator models the keys of src/apps/calculator.c. `long` wraps at 2^64.
--   Calculator/Display treats the text of the display, Calculator/Input the keys.
-- - Terminal models the console, src/shell/terminal.c: the cursor over the text screen or the
--   framebuffer, and the ring of captured characters. The calls of the sink and the characters
--   drawn to the framebuffer are lists in the state. Terminal/Cursor bounds the cursor,
--   Terminal/Ring shows that the ring is a queue.
-- - Keyboard models the driver src/drivers/keyboard.c: `decode` is the part of its interrupt handler
--   that finds a character, `deliver` the part that collects lines. The calls of the window manager,
--   the terminal and command_execute are listed in the result. Keyboard/Line and
--   Keyboard/Decode hold the proofs, Keyboard/Keymaps the tables.
-- - Mouse models the interrupt handler of src/drivers/mouse.c. Mouse/Bounds and Mouse/Packet hold
--   the proofs.
-- - ShellConfig models src/shell/hzsh_config.c. Strings are the characters in front of the NUL; a
--   name written to the entry behind the last alias, which is not counted, is not part of
--   the state. ShellConfig/Bounds and ShellConfig/Alias hold the proofs.
-- - Net models the byte order of src/net/net.h, ip_checksum and the header that ip_send_packet
--   writes in src/net/net.c, and the reply of src/net/icmp.c. Packets are lists of bytes.
--   Net/Frames models the rest: frames, ARP, UDP of src/net/udp.c, TCP of src/net/tcp.c and
--   net_receive, to which memory from the frame on is given as a function. Net/Checksum, Net/Arp,
--   Net/Wire and Net/Echo hold the proofs.
-- - WindowManager models the windows of src/gui/window_manager.c, their list and event queues. The
--   links are the order of the model's list, the window in front of a window is searched in it,
--   and the calls of kfree are lists in the state. WindowManager/Desktop models the input of the
--   desktop, wm_update and wm_handle_key, and the polling of events by src/core/syscall.c.
--   WindowManager/Order, WindowManager/Close and WindowManager/Drag hold the proofs.
-- - Command models the shell's commands, src/shell/command.c: finding the command of a line, and the
--   commands on files, addresses and sounds, on the file system of Fs. What they print or call is
--   a list of effects in the state; the other commands are effects that name them.
--   Command/Parse treats words and blanks, Command/Files writing and printing a file.
-- - Ramdisk models src/drivers/ramdisk.c; Ramdisk/Range treats its range check.
-- - Ext2 models the reader of ext2 volumes, src/fs/ext2.c, on the RAM disk; Ext2/Directory has its
--   paths and directories. A block is the list of its bytes; behind it a buffer holds what the stack
--   holds. The outcome `overrun` is a block that is larger than its buffer. The shift that gives
--   the size of a block is modulo 32, as on the machine. Fuel of the size of a block and of the
--   length of the path is enough, by Ext2/Scan. Ext2/Overrun and Ext2/Content hold the other proofs.
-- - Memory models memset, memcpy and memcmp of src/lib/memory.c on a memory that is a function from
--   addresses to bytes; Memory/Blocks holds the proofs. Strings models src/lib/string.c,
--   with its proofs in Strings/Compare and Strings/Copy.
-- - Print models kprintf, src/lib/printf.c: its result are the characters for the terminal. The
--   loops over digits have fuel 16, the size of the buffer, which is enough for 32 bits.
--   Print/Decimal and Print/Format hold the proofs.
-- - Elf models the loader src/core/elf.c on the memory of Memory and the heap of Heap. The loop over the
--   program headers has 65535 rounds, the most that the 16 bits of their number allow.
--   Elf/Segment holds the proofs.
-- - Syscall models src/core/syscall.c on the terminal of Terminal, the windows of WindowManager and
--   the shell of Command; a call is a value with its arguments as they are used.
--   Syscall/Calls holds the proofs.
-- - Disk models the list of block devices, src/fs/blockdev.c, the reader of partition tables, src/fs/gpt.c,
--   and the probes of src/fs/fat32.c and src/fs/exfat.c. What a device reads is a field of
--   its record. Disk/Devices and Disk/Partitions hold the proofs.
-- - TerminalApp models the terminal window of src/apps/terminal_app.c on the commands of Command:
--   its screen as rows of cells, its escape sequences and its command line. What an effect of a
--   command passes to terminal_putc is a parameter. TerminalApp/Paper and TerminalApp/Printing
--   compare the screen with an endless sheet, TerminalApp/Escape treats escape sequences,
--   TerminalApp/Bounds the arrays, TerminalApp/Session a command that is typed and run.
-- - Notepad models the keys and the painting of src/apps/notepad.c; Notepad/Paint has the proofs.
-- - Pci models src/drivers/pci.c over a function that gives the double word at an address.
--   Pci/Scan and Pci/Words hold the proofs.
-- - Drawing models the clipped rectangles and the characters of src/gui/graphics.c and
--   src/drivers/vesa.c on a memory of pixels. Coordinates are integers without bounds, and the
--   glyphs are a parameter. Drawing/Fill holds the proofs.
-- - Interrupts models the descriptor tables of src/core/idt.c and src/core/gdt.c and the handlers of
--   src/core/isr.c, with the scheduler of Process. The addresses of the assembly's stubs and the call
--   of a registered handler are parameters. Interrupts/Gates and Interrupts/Fair hold the proofs.
-- - Acpi models src/core/acpi.c over a memory of bytes. The loop over the MADT has fuel, of which as much
--   as there are entries is enough. Acpi/Tables and Acpi/Entries hold the proofs.
-- - FileBrowser models the clicks and the rows of src/apps/file_browser.c on the file system of Fs.
--   The list of a directory has the number of nodes as fuel, as in Fs. FileBrowser/Click treats going
--   into a directory and back, FileBrowser/Shown that a click hits what is drawn.
-- - Clock models the reading of src/drivers/rtc.c; the registers are a function.
-- Fs/Lead states what a path of Fs leads to, without the operations. Base/Wrap shows which sums are
-- those of `int`: they wrap in Drawing and where a window is dragged; the other coordinates are
-- integers without bounds.
--
-- Not modelled: assembly, the order of the boot and the drivers of disks, sound, USB and the network card,
-- which are device registers and the machine's behaviour; the vendored PNG decoder and boot
-- protocol header; the programs that only paint.
pub mod Acpi
pub mod Base
pub mod Calculator
pub mod Clock
pub mod Command
pub mod Disk
pub mod Drawing
pub mod Elf
pub mod Ext2
pub mod FileBrowser
pub mod Fs
pub mod Heap
pub mod Interrupts
pub mod Keyboard
pub mod Memory
pub mod Mouse
pub mod Net
pub mod Notepad
pub mod Pci
pub mod Print
pub mod Process
pub mod Ramdisk
pub mod ShellConfig
pub mod Strings
pub mod Syscall
pub mod Terminal
pub mod TerminalApp
pub mod WindowManager
