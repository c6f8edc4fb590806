-- ===== src/Lib.antt =====
-- A verification library for sptsmuxer, a GStreamer element that multiplexes one H.264 and one
-- AAC stream into an MPEG-2 transport stream of a single program.
--
-- The program and its parts (paths from the root of the repository)
--
--   src/crc.h        the CRC-32 of the tables: `crc_tab`, `calc_crc32`
--   src/psi.c        PAT and PMT as sections: one function of the model per function of the file
--   src/pes.c        the header of a PES packet: `pes_header_set`, `pes_header_length`
--   src/spts.c       the packets (header, adaptation field, continuity counter), the state of the
--                    streams, and `spts_write_frame`, which cuts a frame into packets
--   src/sptsmuxer.c  the element: pads, the choice of the next frame, the push buffer
--
-- The element takes the waiting frame that is due first and gives it to `spts_write_frame`. That
-- pads the packets to groups of 2102 and writes PAT and PMT before an IDR frame, then writes the
-- packets of the frame. Each packet goes to a callback, which collects them in the push buffer.
--
-- Files
--
--   Base, Base/*         shared names, Boolean tests, words, faults, lists, arrays of bytes, and
--                        rules for what holds of each result
--   Bits, Bits/*         bit operations against division and remainder
--   Crc, Crc/*           the checksum; Crc/Table is the table, Crc/Bitwise the bit-by-bit
--                        division, Crc/Residue a message behind its own checksum
--   Pes, Pes/Decode      the header, and a receiver of it
--   Ts                   the operations on a packet; Ts/Header their effect on its fields;
--                        Ts/Decode and Ts/Receive a receiver of one packet and of the packets of a
--                        PID, Ts/Demux one of a PID in a whole stream
--   Psi                  the operations on sections; Psi/Section, Psi/Pat and Psi/Pmt/* a
--                        receiver of a section, and the PMT as an abstract table
--   Spts/State, /Setup   the state, `spts_new`, `spts_add_stream`; Spts/Fresh what they make
--   Spts/Packets, /*     `spts_write_frame` from "unit start indicator is true" on: Fill and
--                        First the first packet, Rest and Loop the others, Whole the frame, Shift
--                        the one length that goes wrong
--   Spts/Frame, /*       the part before it, and the function as a whole: Valid the invariant
--                        between two frames, Gop the start of a group, Audio and Video a frame of
--                        each kind, Stepped, StepVideo and StepAudio one call from the invariant, Run
--                        any number of them, Faults the frames that are lost;
--                        Expected, Shown, Parts, Multiplexed and Program what receivers get from a
--                        whole program
--   Spts/Callback, /*    the functions that write with the calls of `write_func` at their places:
--                        Agrees when a list of packets stands for the calls, Stream, Frame and
--                        Program that each function agrees with its list
--   Spts/Slices, /*      what is allocated and freed: Release `spts_release`
--   Muxer, Muxer/*       the element: Setup, Requests, Clock and Started the requests for pads and
--                        the first call, Push and Allocate the push buffer, Choice the choice of a
--                        pad, Queue the queues as they are emptied, Element its invariant, Collect
--                        one call of `sptsmuxer_collected`, Drain the calls that empty the queues,
--                        Reach any interleaving of arrivals and calls, Whole and Pads all of it from
--                        `sptsmuxer_init` to the receivers; Callback and Callback/* the element
--                        with the calls of its callback at their places;
--                        Names the names of the pads, Unsized the push buffer before its size is
--                        set and beside that of another element, Silent an element without
--                        video; Life the changes of state, Class the properties and pad templates
--   Examples, /*         tests, and the theorems at concrete inputs
--
-- How state and operations correspond to the code
--
-- A struct is a record, a pointer that may be NULL an Option, an array of bytes a list of numbers,
-- a pointer into an array the array and an offset. A function that writes through a pointer
-- returns the array that it leaves. `Result` has the faults: NULL dereferenced, an unset local
-- used, an access out of bounds, an assertion that fails, fuel used up. Fixed-width integers are
-- numbers with the wrap-around written out. `pmt_section.data` points into `pmt_tspacket`, so that
-- the state keeps the bytes once, and `pmt_section` is the view. The calls of `write_func` are the
-- list of packets that a function returns: spts.c drops the results of the callback. The functions
-- whose names end in `_to` make the calls at their places instead, on any callback; the callback
-- is given its data and the packet, and not the state of spts.c. The functions of GLib and
-- GStreamer that matter are arguments: `g_malloc`, `gst_buffer_new_and_alloc`, `g_slice_new0`,
-- `gst_util_uint64_scale`, and whether `gst_collect_pads_add_pad`, `gst_element_add_pad`,
-- `gst_element_register` and `gst_pad_push_event` succeed. The addresses of slices stand in a model
-- of their own (Spts/Slices), beside the contents. A pad is the queue of the frames that wait on
-- it, and the calls on the source pad and on the collect pads are lists that a function returns.
-- `MuxerState` is the struct of the element together with `pushbuf`, the global variable that all
-- elements of the process share: `sptsmuxer_init` gets it as the elements before have left it. The
-- theorems on the element as a whole start with it unset; between two calls on an element no other
-- element pushes.
--
-- Bounds and fuel
--
-- `rest_packets` runs on fuel 1 + the length of the frame, since a round takes at least one byte;
-- `write_nulls` on 1 + the number of packets that are missing. Frames are below 2^32 - 22 bytes, so
-- that no sum of lengths wraps in 32 bits, and the place of a group below 2^64, some 10^15 groups.
--
-- Not modelled
--
-- Debug output, the macros that define the type and the plugin, the texts that describe the
-- element, the references on pads and buffers, and the block of the push buffer, which nothing
-- frees. Locks and threads are GStreamer's: the collect pads call
-- `sptsmuxer_collected` one call after the other.
pub mod Base
pub mod Bits
pub mod Crc
pub mod Pes
pub mod Ts
pub mod Psi
pub mod Spts
pub mod Muxer
pub mod Examples
