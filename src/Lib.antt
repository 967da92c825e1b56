-- ===== src/Lib.antt =====
-- WineGlass runs Windows programs on another host: it emulates an x86-64 processor and answers the
-- calls of Win32 itself. This library models the parts that do not touch the host.
--
-- The files and what they model:
--   Memory       Sources/Memory/wg_memory.h and .c: the guest's address space, a table of regions
--                (`WGMemRegion` is `Region`, `WGMemorySpace` is `Memory`). The sized readers and
--                writers are `read_word` and `write_word` at 1, 2, 4 and 8 bytes.
--   X86/State    Sources/CPU/wg_x86_state.h and .c: registers and flags (`WGx86State` is `Cpu`).
--                Compare holds `eval_condition` of the interpreter, which reads those flags.
--   X86/Decode   Sources/CPU/wg_x86_decode.h and .c: `wg_x86_decode` is `decode`. The `DecodeCtx`
--                is the state of the monad `Decoder`, a pointer into the code is an offset.
--   X86/Interp   Sources/CPU/wg_x86_interp.h and .c: `wg_x86_exec_one` is `exec_one`, one function
--                for each case of its switch. Processor and memory are the state of the monad
--                `Run`; the interpreter reads and writes through the functions of Memory and
--                decodes with `decode`.
--   Threads      Sources/Win32/wg_threading.h and .c: the cooperative scheduler of the guest's
--                threads. Its calls of Sources/Core/wg_blink_bridge.h are the record `Blink`.
--                Threads/Reachable holds the states that its operations lead to, Threads/Switch what
--                the bridge documents (`IsBridge`).
--   Windows      Sources/Win32/wg_win32_windows.h and .c: the window table (`WGWindowManager` is
--                `WindowManager`). Refine is the same interface on a map from handles to windows,
--                and Runs compares sequences of calls.
--   Bitmaps      Sources/Win32/wg_win32_bitmap.h and .c: the table of bitmaps and the decoding of
--                device-independent bitmaps (`decode_dib`). Bitmaps/Images is the layout of the
--                format, apart from the code that decodes it.
--   Pe           Sources/PE/wg_pe_loader.h and .c: the loader of executables (`load_memory`).
--   Queues       Sources/Core/wg_engine.c: the ring of I/O completions (iocp_post, iocp_get) and the
--                ring of thread messages (tmsg_push, tmsg_pop).
--   Gdi          Sources/Win32/wg_win32_gdi.c: device contexts, brushes, filled rectangles, captions,
--                and the blits between the buffers of Windows and of Bitmaps.
--   DllMapper    Sources/Win32/wg_dll_mapper.c: the table of thunks for Win32 functions, the stubs, the
--                functions registered from the start, and the move of the thunks by
--                map_thunks_to_blink of Sources/Core/wg_engine.c.
--   Engine       load_pe_builtin of Sources/Core/wg_engine.c, where Pe, Memory, DllMapper and X86 meet.
--   Base         the shared names: C integers, bits, lists as arrays.
--
-- Numbers are unbounded, with each wrap of a C integer written out as a remainder; signed values
-- of 64 bits are patterns. What C leaves undefined is a fault: an index or an access past a buffer,
-- a shift by the width or more, a signed product that does not fit. `Option` has one fault (`none`);
-- the interpreter says which of five it was, and the loader tells a fault from spent fuel.
--
-- Loops: the prefixes of an instruction are read with fuel `max_len`, one unit for each byte, which
-- is the number of bytes there are; the search for a ready thread takes 32 steps, as the source's
-- does; `exec_block` recurses on its count of instructions. The loops over pixels, headers and
-- functions recurse on the rounds left; the loop over import descriptors has as much fuel as the file
-- has bytes, and those over a ring as it has slots. The loops over entries, sections, imports and the
-- rows and columns of a rectangle recurse on the list or on the number of rounds.
--
-- Not modelled: allocation and freeing of the structs, logging, the printing of names and states;
-- the x87 stack, which nothing uses; the drawing of text and of lines of
-- Sources/Win32/wg_win32_gdi.c, which for text is the host's; the other Win32 functions of
-- Sources/Core/wg_engine.c and of Sources/Win32, the user interface, and the third-party code of
-- Sources/LZMA and Vendor/blink. `malloc` and `calloc` are parameters that say whether there is room,
-- `fopen` and `fread` give the bytes of a file and how many were read; the addresses that two stubs
-- return are parameters too.
pub mod Base
pub mod Memory
pub mod X86
pub mod Threads
pub mod Windows
pub mod Bitmaps
pub mod Pe
pub mod Queues
pub mod Gdi
pub mod DllMapper
pub mod Engine
