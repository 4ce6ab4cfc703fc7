-- ===== src/Lib.antt =====
-- IncomUdon native client: a voice transceiver that talks to a relay over UDP.
--
-- The program's logic stands in five crates and the desktop application, which this library models;
-- each directory here is one of them, and each file says which part of it it is about.
--   Protocol   crates/incomudon-protocol/src/lib.rs, the wire format. `decode` and `encode` are
--              `Packet::decode` and `Packet::encode`, `decode_header` and `encode_header` are
--              `PacketHeader`'s, `decode_security` and `encode_security` are `SecurityHeader`'s.
--   Audio      crates/incomudon-audio/src/lib.rs: `FrameQueue` (Queue), `PlaybackBuffer` (Playback),
--              `CaptureFrameAssembler` (Capture) and the PCM codec (Pcm).
--   Profiles   crates/incomudon-core/src/lib.rs: the store of profiles and its validation (Store).
--   Crypto     crates/incomudon-crypto/src/lib.rs: passwords, keys, nonces, the cipher (Keys).
--   Transport  crates/incomudon-transport/src/lib.rs: the relay session. `State` has the worker's
--              variables, `Send` the functions `send_packet`, `send_control` and `send_pcm`,
--              `Receive` has `decode_pcm`, `Worker` the loop of `run_worker` in whole rounds.
--              `Session` is `RelaySession`, its channel of commands, and `run_worker` again, in
--              steps from one shared access to the next, between which the owner's calls fall.
--              `Control` and `Session/Operations` say, apart from the code's own functions, what a
--              control packet carries and what a command asks for.
--   Desktop    apps/desktop/src: `Storage` is profile_storage.rs with the two functions of main.rs
--              that use it, `Audio` is desktop_audio.rs, `Window` the functions of main.rs between
--              the window and a profile, the relay or an event, `Resolve` is `resolve_relay`, and
--              `App` the state that `main` shares and its handlers: `App/Talk` (the talk button),
--              `App/Save`, `App/Link` (connect, disconnect, the end of `main`) and `App/Tick` (the
--              timer). `App/Calls` is any sequence of them.
-- Transport encodes and decodes its datagrams with Protocol, takes its keys and cipher from Crypto
-- and its encryption mode from Profiles. Desktop moves captured frames from Audio into the session,
-- and the session's events into the window and the playback buffer. `Base` has what they share:
-- `Outcome` for a result, an error or a panic, lists, big-endian words, and Rust's text functions on
-- code points, with the decimal text of a `u32`.
--
-- Numbers. An integer of w bits is a natural number; where the source adds with wrap-around, so does
-- the model. Predicates named `IsTyped`, `IsBytes` and `IsSamples` say that a value is in the range
-- of its Rust type, and are hypotheses only of theorems that need them. `i16` samples are bit
-- patterns. Counters that a debug build checks for overflow wrap here, as in a release build.
-- Failures. Indexing and slicing out of range, and a failed assertion, are outcomes of the model
-- (`panic`, or `none` in Audio and Desktop), and a panic inside a call is a panic of the caller; the
-- theorems show where they cannot happen.
-- Loops. Recursion is structural, over the bytes, the profiles, the device frames, or the rounds
-- of the worker's loop. A round carries what the loop meets from outside: the commands, the clock,
-- the datagram, another thread's stop flag, the events that were taken. A step of a session's thread
-- carries the clock and the datagram; joining the thread takes as many steps as a list has, and five
-- more than commands wait are enough. The timer's loop over the events goes on while there are any,
-- and the session's thread may add events at any time; only loops that end are modelled. The steps
-- of the thread before each look at the events are a list, and behind it the thread adds no event
-- and the loop is on fuel, one more than events wait, which is enough. The digits of a `u32` are on fuel 10, which is enough.
-- Threads. The window's handlers run one at a time and hold a lock only while they run, so a handler
-- is one step; the sound callbacks and the session's thread go between the handlers, and the thread
-- also between the rounds of the timer's loop.
--
-- Parameters. `Crypto.Primitives` stands for the crates sha2, hkdf and aes_gcm, and `IsLawful` for
-- what they document: the sizes of digests and of expanded keys, a tag of 16 bytes, and that
-- decryption undoes encryption. `Audio.Capture.Float` stands for `f32`, with no law but the range of
-- the cast to `i16`. `Transport.State.Env` stands for the socket's results and the text of errors,
-- `Transport.Session.Os` for opening the socket and the thread. `Desktop.Storage.Files` stands for
-- the file system, the platform's directories and serde_json, `Returns` for that no call of them
-- panics, and `IsFaithful` for what they document beside: what was written is read, and what was
-- serialised is read back.
-- `Desktop.Audio.Devices` stands for cpal, `Desktop.App.Host` for all of these and name resolution.
--
-- Not modelled: the layout of the window and the build script that compiles it (apps/desktop/ui,
-- apps/desktop/build.rs), of which `AppWindow` keeps the properties that main.rs reads and writes,
-- and the platform trait (crates/incomudon-platform), which only declares. `on_profile_value_changed`
-- does nothing. Locks cannot be poisoned unless a handler panics, so the branches for it are left out.
pub mod Base
pub mod Protocol
pub mod Audio
pub mod Profiles
pub mod Crypto
pub mod Transport
pub mod Desktop
