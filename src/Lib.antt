-- ===== src/Lib.antt =====
-- The emulator core of Pockiva (crates/gb-core/src): an interpreter of the Game Boy's processor, its
-- timer, interrupts, joypad, bus, audio and picture units, and the cartridges with their batteries and
-- real-time clock. Its remote controllers (crates/gb-network/src): the session of a controller, the
-- limit on its messages and the handling of the sockets. And of the desktop application
-- (apps/desktop/src-tauri/src) the worker that runs the core, and the queue of frames to the window.
-- Paths without a crate or an application below are of gb-core.
--
-- The parts and how they interact. The processor runs one step over a bus: it reads, writes and idles
-- through the bus, and each access advances the bus's clock by one machine cycle. The scheduler asks the
-- processor first how many clocks the next step takes, and runs it only where they fit its budget. The
-- timer and the joypad register report masks of interrupts, which the interrupt registers collect and
-- the processor takes by priority. A cartridge answers the bus by its mapper, and gives and takes the
-- state of its battery; an image is loaded where its header is accepted. The bus is what the processor
-- relies on, over a mapper and picture and audio units; the picture unit draws line by line as its clock
-- runs, and locks its memories against the processor while it reads them. A remote controller's socket
-- runs in a task of its own: it greets, claims the one place there is, hands the session's events to the
-- sink, and gives the place back. In the desktop application callers put commands in a queue, and the worker answers them
-- one after the other, between them runs the core as the audio queue asks for it, offers the window the
-- latest frame, and lets go of the inputs of a controller that has left.
--
-- Which file models which:
--   Prelude, Prelude/*     numbers and their Boolean tests, lists, words that wrap, bits
--   Contracts              contracts/emulator.rs: `CoreError`, and `Result` with its early returns
--   Interrupts             interrupts.rs: Interrupt, InterruptMask, InterruptRegisters
--   Timer                  timer.rs: `tick_one` is one turn of the loop of `Timer::tick`
--   Joypad                 contracts/input.rs and joypad.rs; `set_source` and `clear_source` are
--                          `InputMatrix::set` and `clear`
--   Cpu/Registers          cpu/registers.rs
--   Cpu/Decode             cpu/decode.rs
--   Cpu/State              cpu/mod.rs, and the operand accesses of cpu/execute.rs; the trait `CpuBus` is
--                          a record of its methods over a type of states
--   Cpu/Alu, Cpu/Execute   `alu` to `accumulator_misc`, `execute_base` in blocks by the opcode's high
--                          bits, `execute_cb`, `service_interrupt`
--   Cpu/Step               `next_step_t_cycles`, `step`, `pad_to`, `branch_taken`
--   Cartridge/Header, Load cartridge/header.rs, and `Cartridge::load` of cartridge/mod.rs; Parsed what an
--                          accepted image is, Loaded what a cartridge reads of it
--   Cartridge/*            cartridge/mapper.rs, rom_only.rs, mbc1.rs, mbc3.rs (Rtc and Mbc3), mbc5.rs;
--                          Cartridge/Clock, Setting, Banks and Ram hold what is proved of them
--   Machine                machine.rs: `run_cycles`, `reset` and the inputs of `GameBoy`, over the record
--                          `BusOperations` of what it calls of the bus; Machine/Budget its loop,
--                          Machine/Whole the bus in the record's place
--   Bus/Dma, Bus/Serial    bus/dma.rs, and `SerialPort` of bus/mod.rs
--   Bus/Devices            the traits of bus/devices.rs and cartridge/mapper.rs, `MachineBus`
--   Bus/Map, Bus/Cycle     bus/mod.rs: `read_unclocked` and `write_unclocked`; `tick_m_cycle` and the
--                          implementation of `CpuBus`; Bus/Fields, Valid, Clocked, Memory and
--                          Oam what holds of them
--   Audio/*                apu/: Length, Envelope, Sweep, Pulse, Noise, Wave and Pcm by the files' names,
--                          Audio/Unit mod.rs; Audio/Counting, Range and Channel what holds of them
--   Audio/Device           bus/devices.rs: the audio unit as the bus has it
--   Network                crates/gb-network/src/message.rs and the types of session.rs
--   Network/Session        session.rs: the calls of `SessionMachine`; Network/Sequence its numbers,
--                          Network/Accepting its answers
--   Network/RateLimit      rate_limit.rs
--   Network/Frame, Socket  server.rs: `parse_client_frame`; `handle_socket` and `run_message_loop` of one
--                          socket; Network/Turns what they keep
--   Network/Sockets        server.rs: the sockets' tasks together; Network/Holders and Claims what every
--                          interleaving keeps
--   Ppu/Registers          ppu/registers.rs
--   Ppu/State              the types of ppu/mod.rs, sprite.rs and render.rs
--   Ppu/Sprite, Render     ppu/sprite.rs, and ppu/render.rs
--   Ppu/Timing             ppu/timing.rs: `tick_one` is one turn of the loop of `Ppu::tick`
--   Ppu/Unit               ppu/mod.rs: the registers, the memories, `tick` and the bus's device
--   Ppu/*                  Frames, Modes and Timed hold what is proved of its clock, Drawing, Selection,
--                          Tiles and Pixels of a line, Access and Locked of the processor's accesses, Oam of a
--                          transfer's writes
--   Desktop/FrameQueue     apps/desktop/src-tauri/src/video/queue.rs; Delivery what the window is sent
--   Desktop/Packet         apps/desktop/src-tauri/src/video/packet.rs
--   Desktop/Pacing         apps/desktop/src-tauri/src/audio/policy.rs
--   Desktop/AudioQueue     apps/desktop/src-tauri/src/audio/queue.rs, over the operations of the ring of
--                          `ringbuf` and of the samples; Flushed what is played after a flush
--   Desktop/Lifecycle      apps/desktop/src-tauri/src/emulator/contracts.rs, and `RuntimeModel` of
--                          emulator/runtime.rs there
--   Desktop/Controllers    emulator/runtime.rs there: `apply_controller_event` and the inputs that the
--                          worker keeps; Retained the steps of both together, Cancelled,
--                          Departed and Released what they keep
--   Desktop/Worker         emulator/runtime.rs there: the worker's state, its ticks, and the core and the
--                          audio output that it calls; Commands `handle_command`, Phases and Answers
--                          what every command keeps
--
-- How the code is read. A method on `&mut self` takes the state and gives it back with its result; the
-- processor's are in a state monad over processor and bus. Machine words are natural numbers with their
-- wrap-around written out. `Result` has a third constructor `panic` for a failed `expect`. A `HashMap` is
-- an association list; a fixed array of the picture unit is a function of its index. The moment that the
-- system clock gives is an argument, as it is in the source. Error messages are reduced to their kind.
--
-- Bounds. The loop of `pad_to` runs on its target as fuel, and a turn takes four clocks of it; the loop of
-- `run_cycles` runs on its budget, and a turn that goes on executes a clock or more; running out is
-- a panic there. The clock that counts the steps is not bounded where the source has 64 bits.
-- `Timer::tick` and `Ppu::tick` run on the number of their clocks. The loop of the audio unit on the phase
-- of the samples runs on the phase, of which a turn takes 4194304. Everything else is by clauses without
-- fuel. A token of the rate limiter is 1000000000 units, and its sums and products saturate at 128 bits.
--
-- Checks of the build. `run_cycles` has the build as an argument: one with debug assertions panics where a
-- step takes other clocks than predicted or the sum of the clocks passes 32 bits, and one without goes on
-- and wraps around. The assertion of `Cartridge::load` is a panic in the model of either build, and so is
-- an index or a slice of an image out of its range. The assertion at the end of `pad_to` is left out.
--
-- Hypotheses. What a bus promises its processor is the record `ClockLaws` of Cpu/Timing/Access: an access
-- takes four clocks, an acknowledgement and a reset of the divider none, a read gives what a peek
-- gave, a peek gives a byte and the pending interrupts are five bits; Bus/Clocked fills it. The second
-- byte of a prefixed opcode is peeked before the first is fetched and read after it; `IsStable` of
-- Cpu/Timing/Predict says that the two agree, which an OAM transfer that ends between them, or a device
-- register there, can break, and Cpu/Timing/Overrun does without it; what is said of a run on the machine
-- asks for it of no state. `DeviceLaws` of Bus/Devices says that the mapper and the units read bytes, as their types do. `RingLaws` of Desktop/Flushed says that `ringbuf`
-- keeps the samples in their order and that a cleared ring is empty. `OamLaws` of Bus/Oam says that a tick
-- of the picture unit leaves the sprites' memory; Ppu/Oam fills it. `InputLaws` of Desktop/Released
-- says what a source presses after its input is set or cleared.
--
-- Interleavings. Network/Sockets has a step for each atomic action of a task on what the tasks share: the
-- exchange of `controller_claimed`, its release, and each call of the sink. What a socket, the clock and
-- the sink answer is any value. The calls of the sink are kept in their order, refused or not.
--
-- Desktop/Retained has a step for each part of a call of `apply_controller_event` that the worker can come
-- between: what `prepare` does to the generations, and the sending of the command or the end of its time;
-- and one each for the worker's drain, its receipt of a command and its work on it. The calls are made one
-- after the other, as the server of the controllers makes them; two calls at once, of which the one takes
-- its generation before the other and sets it after, are not among the steps.
--
-- A failed `Result` leaves no state: what a step did before it met an illegal opcode is not kept.
--
-- Not modelled: `load_rom` of the machine; the mixer of the audio unit, in floating point, in whose place
-- its operations are a record; the heartbeat's deadline, which is one of the answers that end a socket's
-- loop; the start and the stop of the listener, its files and headers, which are calls of third-party
-- libraries; what serde derives. Of the desktop application: the audio output, whose operations are a
-- record that the worker is given, and a call of its queue that another call interrupts; the loop of the
-- worker's thread on its deadlines; a queue of commands that is full, but for a controller's, and a
-- request that waits too long; the mock core, the commands of the window and the manager of the listener.
-- Of the bus's traits `drain_audio`. A frame's sequence number is not bounded, where the source's addition
-- panics past 64 bits. The user interface is not Rust.
pub mod Prelude
pub mod Interrupts
pub mod Timer
pub mod Joypad
pub mod Contracts
pub mod Cpu
pub mod Cartridge
pub mod Machine
pub mod Network
pub mod Bus
pub mod Audio
pub mod Ppu
pub mod Desktop
