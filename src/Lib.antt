-- ===== src/Lib.antt =====
-- WebLinked renders a web page offscreen at a broadcast raster and sends the frames and the sound to
-- SDI cards, to the network and to displays. This library models the core of that path: the rings
-- and queues that carry frames and sound between threads, the clocks that pace them, the conversions of
-- pixels, the table of sources, the JSON of the settings, and the decoder of control messages.
--
-- How the parts interact: the browser paints into a buffer of the frame pool and publishes it to the
-- latest-frame slot; the clock thread takes it once per tick and hands it to each output. An output
-- converts the pixels, keeps its own frames in a recycle ring or a screen ring, and on a card follows
-- the playout schedule. Sound goes through the audio FIFO of the engine, or through the audio ring
-- where two threads with different clocks meet, and an audio router gives each output
-- its own gain, map of channels and delay, read from the JSON of its options. Control requests find
-- their source through the table of sources, which lets no source be stopped while a call is inside it.
--
-- Which file models which part:
--   Base      the shared names, Boolean tests, lists, division, buffers; Base/Int the signed integers,
--             Base/Text bytes and decimal numbers
--   Playout   core/playout_schedule.cpp (PlayoutSchedule)
--   Clock     core/frame_clock.cpp (FrameClock)
--   Frames    Recycle: core/recycle_ring.h (RecycleRing); Latest and Queue: core/frame_ring.h
--             (LatestFrameSlot, FrameRing); Pool: core/frame.cpp (FramePool); Screen:
--             outputs/screen_frame_ring.h (ScreenFrameRing)
--   Audio     Fifo: core/audio_fifo.cpp (AudioFifo); Ring: core/audio_ring.cpp (AudioRing)
--   Pixel     core/pixel_convert.cpp; Paint has the double loop, Studio, Uyvy, Alpha, Frames and Scale
--             what each conversion writes
--   Blit      core/rotated_blit.cpp (RotatedBlit)
--   Sources   core/source_table.h (SourceTable)
--   Json      core/json.cpp: Json the bytes and strings, Grammar the parser of values, Print the printer,
--             Access the members of Value; the other files of Json hold lemmas on them
--   Route     core/audio_route.cpp: Route and Options AudioRoute, Router AudioRouter
--   StreamArgs core/stream_args.cpp: the command line of the stream encoder; Redaction redactStreamUrl,
--             Bitrate doubleBitrate
--   Osc       control/osc_server.cpp (OscServer::decodePacket)
--   Gate      core/call_gate.h (CallGate) and core/control_queue.h (ControlQueue)
-- A state is a record with the members of the class, an operation a function that returns the new
-- state, and the threads that share a state are a step relation over those functions. The names are
-- those of the source in the spelling of this language: readPlanar is read_planar.
--
-- Bounds and fuel: nearly every loop is structural recursion on a count that the source computes. The
-- loops of the JSON parser over strings, arrays and objects take one more than the bytes that are left
-- as fuel, which is enough since each round takes a byte; values recurse on the depth that is left.
-- A uint64 cursor and the int64 product of a deadline keep their wrap written out, as do the uint32 of
-- the alpha arithmetic and the cut of a JSON number to an int; other sizes are natural numbers, or integers where the source has
-- signed values that can be negative.
--
-- Not modelled: the browser, the devices and the vendored libraries that drive them (third_party), the
-- application, the web pages, and the system calls of sockets, threads and timers; a reading of a clock
-- is an argument. The configuration, the HTTP parser, the names of video formats, bundles of OSC
-- messages and the order of the tiles of the rotated blit are not modelled. Arithmetic on floating point
-- numbers is a parameter of Json (Doubles) and of Route (Gains), and so is what strtod and snprintf do.
pub mod Base
pub mod Playout
pub mod Route
pub mod Frames
pub mod Audio
pub mod Pixel
pub mod Sources
pub mod Clock
pub mod Blit
pub mod Osc
pub mod Gate
pub mod Json
pub mod StreamArgs
