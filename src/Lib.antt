-- ===== src/Lib.antt =====
-- A verification library for JMPXRDS, an FM multiplex signal generator with RDS.
--
-- The parts, and how they interact. A control tool or the graphical interface writes the
-- encoder's state, in shared memory, through the setters of rds_config.c. The scheduler
-- (rds_get_next_group) chooses the type of the next group; rds_generate_group fills its four
-- infowords from the state; rds_generate_block appends to each its checkword;
-- rds_generate_group_samples codes the 104 bits differentially and turns them into a waveform.
-- The main loop (rds_main_loop) resamples that waveform into the output buffer that is not being
-- played, and the audio callback takes samples of the other by rds_get_next_sample, which swaps
-- the two at the end of a group. Two pairs of threads of rds_dynpsrt.c read a file and show its
-- text through rds_set_ps and rds_set_rt. JACK's callback (fmmod_process_cb) puts a period of
-- audio into a buffer and triggers the processing thread, which mixes it with pilot and RDS
-- samples and gives it to a socket and to the RTP server. The RTP server sends the multiplex
-- signal to a list of receivers, which the daemon's signal handler (main.c) changes when rtp_tool
-- sends it a signal with an address; the server's control, the modulator's, which fmmod_tool
-- writes, and the encoder's state, which rds_tool writes, are mappings of utils.c. The daemon
-- initialises the modulator, with its resamplers (resampler.c), filters, encoder and server, and
-- gives it back when it is told to end.
--
-- The files:
--   Base: shared names, lists and bits over the native numbers, and the integers.
--   Block: rds_encoder.c, rds_generate_block, the offset words and the matrix G. Block/Crc is
--     the specification: the division of polynomials that a receiver carries out.
--   Modulation: rds_encoder.c, rds_generate_group_samples and symbol_waveforms.
--     Modulation/Signal is the signal that a message stands for, Modulation/Receiver a receiver
--     of it.
--   Config: rds_config.c and struct rds_encoder_state of rds_encoder.h. Config/State has the
--     numeric fields, Config/Text the texts, Config/Valid the invariant that every setter keeps.
--   Group: rds_encoder.c, rds_generate_group (Group), the functions for the single types
--     (Group/Fill), and the calendar (Group/Clock; Group/Calendar counts its days). A function on the encoder is one from the
--     state and the static variables (Statics) to both and the group.
--   Scheduler: rds_encoder.c, rds_get_next_group with its static counters.
--   Encoder: rds_encoder.c, rds_get_next_upsampled_group, rds_main_loop, rds_get_next_sample,
--     rds_encoder_init and rds_encoder_destroy.
--   Codes: gui/rds_codes.c, the tables of country, language and programme codes and the
--     searches.
--   Dynamic: rds_dynpsrt.c. Dynamic itself has rds_dynps_consumer_thread, which shows a text
--     longer than the PS in turns; Dynamic/Sanitize rds_string_sanitize; Dynamic/Radiotext the
--     reader of the lines and the consumer of the dynamic RadioText; Dynamic/Filemon the reader
--     of the dynamic PS and the initialisation and the end of both. Dynamic/Keeps has the passes
--     of the RadioText's threads as steps, in any order.
--   Shm: utils.c, the functions on shared memory (Shm/Mapping). The operating system's calls
--     are an interface (Posix) with laws on the names.
--   Rtp: rtp_server.c. Rtp/Blocksize is rtp_get_flac_blocksize, Rtp/Stats
--     rtp_server_update_stats, Rtp/Receivers the adding and removing of a receiver over
--     GStreamer's sink (MultiUdpSink), Rtp/Pipeline the making of the elements, Rtp/Server the
--     life of the server, its callbacks and rtp_server_send_buffer, Rtp/Leaks what stays of it for
--     good. Rtp/Address has the texts of addresses and clients.
--   Fmmod: fmmod.c with oscilator.c and filters.c. Fmmod/Oscilator is the oscilator,
--     Fmmod/Filters what the filters do with a period, Fmmod/Mixing the four generators of the
--     multiplex signal, Fmmod/Process fmmod_process and write_to_sock, Fmmod/Input
--     fmmod_process_cb. Fmmod/FilterLife, Fmmod/Parts and Fmmod/Life are the initialisation and the
--     end: of the filters, of what an instance holds, and of the instance (fmmod_initialize,
--     fmmod_destroy).
--   Resource: what a pointer can be, of malloc, FFTW, libsoxr and JACK; a pointer that is given
--     back without being cleared dangles, and a second time is recorded.
--   Resampler: resampler.c. Resampler/Life is its initialisation and end, Resampler/Convert what
--     it does with a period of audio or a group of RDS samples.
--   Tool: Tool/Rds is rds_tool.c, Tool/Modulator fmmod_tool.c with fmmod_init_ctl, Tool/Daemon
--     main.c and rtp_tool.c.
--   Gui: the widgets of gui/ that change the encoder's state. Gui/Checkbox is jmrg_checkbox.c,
--     Gui/Entries jmrg_acentry.c and jmrg_set_button.c, by their handlers and polls.
--   Tests: the theorems at concrete inputs.
--
-- Conventions. The numbers are the native ones; a bit-field or a machine integer of w bits is cut
-- by `% 2 ^ w` where the code stores into it. A `char` is signed, as with gcc on x86: a byte of
-- 128 or more compares as a negative number, and extends its sign into an infoword. A missing
-- state (a NULL pointer) is `none`. A sample of a symbol is the literal of the source in millionths. The
-- products of doubles in the day number are exact fractions, which agree for the years from 1901
-- on. A list is read with a default out of range; the theorems say where that does not occur.
--
-- Fuel. Only rds_get_next_group recurs other than structurally: it calls itself after it has set
-- the second's counter back, so two rounds are enough, as Scheduler/Total shows.
--
-- Parameters. The C library's clock is a pair of broken-down times or of failures; the resampler
-- is a function from the group's samples and the number of frames; what the operating system and
-- JACK answer on initialisation is a record. The scheduler and the generator do not see a change
-- of the state by another process in the middle of a call. The interleaving of the main loop and
-- the player is by whole calls: a signal is taken to find the main loop waiting.
--
-- The text that `getline` or `fgets` reads of a file is an argument of the passes that read it,
-- and a pass of a thread is one step. GStreamer answers whether an element or a link can be made;
-- its sinks are known by the text of their clients. A server in the shared memory is the server
-- itself, and the statistics' static variables are fields of it.
--
-- The samples and phases of the modulator are of any types with operations that obey no law
-- (Arith), so nothing is said of rounding; the transforms of FFTW are functions.
--
-- What malloc, FFTW, libsoxr, JACK and the thread library answer to an initialisation is a record
-- of Booleans and numbers (JackAnswers, FilterAnswers, ResamplerAnswers), so that every failure
-- stands at its place. The call for a thread, of JACK, gives a code, as it gives an error number where
-- the source looks for a negative one. A mapping whose memory is NULL, on which the encoder's
-- initialisation writes to NULL, is left out there. A write to the named pipe, which does not
-- block, takes any number of samples. Of what the threads do between the modulator's
-- initialisation and its end only the pipe's descriptor is followed, and only delivered signals
-- are, since one that is sent while another of its kind is pending is lost. A tool's command line is the list of the options that getopt found, with
-- the texts of their arguments; strtol, atoi and the percentages of a gain are arguments. The
-- daemon gets its signals as a list, one after the other.
--
-- Not modelled: rtp_client (a GStreamer pipeline), the taps and impulses of the filters, which are
-- computed in floating point, the waiting of the two threads of resampler.c for each other in a
-- build with JMPXRDS_MT, which the build does not define, the texts that the tools and utils.c
-- print, and of the graphical interface the making of the widgets, the list of the receivers, the
-- file chooser, the plotters and the panels, which are calls of GTK and OpenGL; the GNU Radio
-- receiver is generated.
mod Base
pub mod Block
pub mod Modulation
pub mod Config
pub mod Group
pub mod Scheduler
pub mod Shm
pub mod Rtp
pub mod Resource
pub mod Resampler
pub mod Tool
pub mod Gui
pub mod Fmmod
pub mod Encoder
pub mod Codes
pub mod Dynamic
pub mod Tests
