-- ===== src/Lib.antt =====
-- The drivers of a field robot's sensors: LMS4xxx LiDARs, AsteRx receivers and GigE cameras, and the code
-- that they share. This library models the parts that carry data from the wire to the disk, and the parts
-- that decide whether a recording is good.
--
-- The parts, the files that model them and the code that they stand for:
-- Common/ByteUtil: common/include/byte_util.h (LoadBigU32, StoreBigU32 and the others).
-- Common/RingBuffer: common/include/ring_buffer.h (try_push, try_pop), a queue between two threads. Only
-- its own test uses it.
-- Common/SensorSyncHub: common/src/sensor_sync_hub.cpp (Register, Arm, Disarm). The camera drivers share
-- one trigger board through it. The board and the pulse rates are parameters. What the board is sent is
-- told of a board that keeps its STARTs (Board).
-- Common/Ipv4: common/src/ebus/ipv4.cpp (ParseIpv4, FormatIpv4, ValidateSetIp). Masks has the meaning of a
-- mask in arithmetic.
-- Lms4xxx/ColaB: lms4xxx_driver/src/cola_b.cpp (Encode, Decode, ParamsOf, ComputeChecksum).
-- Lms4xxx/FrameReceiver: lms4xxx_driver/src/frame_receiver.cpp. FrameReceiver is its Impl, with the calls
-- of the two callbacks as a list of events; feed is Feed, round one pass of its loop.
-- Lms4xxx/ScanData, Lms4xxx/ScanDataParser: lms4xxx_driver/include/scan_data.h and
-- src/scan_data_parser.cpp. A section of a telegram is a function from a position to a value and the next
-- position; a read that the bytes do not cover is a value of its own. parse is Parse, parse_timestamp_only
-- the ParseTimestamp that skips the variable sections.
-- Lms4xxx/ClockQuality: lms4xxx_driver/include/clock_quality.h (Observe and the tests on an observation).
-- Lms4xxx/RecordingStatus: lms4xxx_driver/include/recording_status.h (FirstDataLoss, AssessRecording).
-- Lms4xxx/CommandChannel: lms4xxx_driver/src/command_channel.cpp (SendAndReceive, ReadVariable,
-- CallMethod). A function stands for each part of SendAndReceive up to the next read; the TCP client is a
-- parameter.
-- Lms4xxx/RawSplit, Lms4xxx/RawRecorder: lms4xxx_driver/src/raw_recorder.cpp, the state with the files of
-- a split, and the queue with the thread that writes. OnFrame puts a frame into a queue of
-- Common/BoundedQueue, and write_next is a pass of the thread that takes it out. The disk is a parameter:
-- it says of each access whether it succeeds. The children tell what a step keeps of the files (Keeps,
-- Index, Orderly), what it adds to them (Complete, Whole), and what the verdict of RecordingStatus makes
-- of it (Judged).
-- Common/BoundedQueue: common/include/bounded_queue.h. Common/RotatingFileWriter: RotatingFileWriter of
-- common/include/file_writer.h, and WriteBlock of asterx_driver/src/sbf_writer.cpp. Streams and clock are
-- a parameter. Common/RunGuards: common/src/run_guards.cpp (CheckDisk, CheckSensor); the arithmetic of
-- doubles is a parameter.
-- Ebus/BlockIds: ebus_driver/include/ebus_driver/block_ids.h (Observe). Ebus/RawFormat:
-- ebus_driver/src/raw_format.cpp, and what Append of ebus_driver/src/raw_recorder.cpp writes for a buffer.
-- Ebus/Recording: app/decoder/ebus/recording.py (crc32c, _record_at, iter_records), the reader of these
-- files with a checksum of its own; what it asks of the JSON of the metadata is a parameter.
-- Asterx/SbfTypes, Asterx/SbfParsers: asterx_driver/include/sbf_types.h and src/sbf_parsers.cpp. A read
-- outside of the buffer is a value of its own, and the bytes that are left are a difference of 64 bits
-- that wraps.
-- Asterx/SbfWriteQueue: asterx_driver/src/sbf_write_queue.cpp. Each section under the lock is one step;
-- the writer is a parameter. Prelude holds the names that all modules share. The Tests modules run the
-- theorems on concrete inputs.
--
-- Integers are natural numbers, with a wrap to the width written out where the code can wrap. A signed
-- integer of 64 bits in the clock's arithmetic does not wrap: its values are microseconds of a date. Loops
-- are structural on the list or the count that they go through. The loop of Feed takes fuel, a unit for
-- each byte in the buffer; each pass that goes on moves on by a byte at least, so the loop never runs out.
-- The loop that drains the command stream has a unit for each byte that it may drop, and a pass that goes
-- on drops one at least. The reader of camera files has one more than there are bytes, and a record takes
-- 48 at least. A number is printed with at most 20 digits, enough for 64 bits.
--
-- Not modelled: log lines, operating system calls, threads other than as sequences of steps, floating
-- point (a float is its bit pattern, a pulse rate is a parameter), the texts of most messages, the camera
-- SDKs, and the other Python code and the vendored code of the repository. The session runner, the files
-- of the camera recorder and the transports are left out as well: their work is mostly calls of the
-- operating system and of threads.
pub mod Prelude
pub mod Common
pub mod Ebus
pub mod Lms4xxx
pub mod Asterx
