-- ===== src/Audio.antt =====
-- The path of the sound: core/audio_fifo.cpp between the browser and the frame clock (`Fifo`), and
-- core/audio_ring.cpp between the frame clock and a sound card (`Ring`). A sample is a value of any
-- type with a `silence` (0.0f): the buffers move samples and never compute with them.
pub mod Fifo
pub mod Ring
mod Tests
