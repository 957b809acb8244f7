-- ===== src/Lib.antt =====
-- The ZWO EAF proxy: a device that an ASIAIR takes for a ZWO EAF focuser, in Python on a host and in
-- C++ on an ESP32, and the tools beside it. The model is a translation of the Python package in
-- host/src/zwoproxy, of the two tools in host/tools, and of the firmware in firmware/main.
--
-- The parts and how they meet.
-- - Persona (personas/): `Eaf` and `Descriptors` hold the constants, `Protocol` the pure codec of
--   protocol.py (`parse_command`, `frame_reply`, `encode_state` and the other bodies), `Device` the
--   state of `EAFDevice` and its two request handlers, and `Device.Declared` its attributes. A handler
--   that raises is an `err` result; an acknowledgement and a reply are values. Below `Protocol` and
--   `Device` stand their theorems.
-- - Focuser (focuser.py): the methods of the `Focuser` protocol as a record of operations on a
--   state, and the contract that the persona relies on. `Device` takes it as a parameter.
-- - Simulated (backends/simulated.py): `SimulatedFocuser`, an implementation that fills the
--   contract. Each call of `time.monotonic()` is the next reading of a sequence, the parameter
--   `clock`; the theorems that need it take as a hypothesis that the clock never runs backwards.
-- - Capture (capture.py): `Stream` is `StreamDecoder`, whose generator is read to its end as a list
--   of records with what ended it; `Pcap` is `PcapWriter`, whose file is a list of bytes. `Session`
--   is `capture` with its callback `on_transfer`: what the USB library does is a script, the
--   transfers that complete in each call of `handleEventsTimeout` before the stop and behind it, and
--   the exceptions of a claim, a start or a submission. What the callback raises (`StreamDesyncError`,
--   `struct.error`) is a value of its call, and the session goes on: the library calls it through
--   `ctypes`, which prints such an exception and drops it.
-- - Pinefeat (backends/pinefeat.py): commands and reply parsers, over `Text`, which models Python's
--   text as code points, with `rstrip`, `str` and `int` on ASCII.
-- - FakeCef (host/tools/fake_cef.py): the `Controller` that stands in for the device on the other end,
--   with its clock as in `Simulated` and Python's `float` of a text as a parameter. `Serve` is `serve`:
--   the reads of the port in order, and what a chunk of bytes behind the buffer writes and leaves.
-- - Probe (host/tools/probe_pinefeat.py): the bench tool. What it calls of the system (writing, `select`,
--   reading, the clock, sleeping) is a record `Os`, the parameter of its parts, which are actions: they
--   change the system's state and return or raise. `Port` is the line reader of the class of that name,
--   `Bench` the functions from `usable` to `retarget_cycle` and the test of `main`, `Figures` what `main`
--   and `find_port` only compute, `Main` the rest of `main` with its options. `Fake` makes an `Os` of
--   the fake controller on a pty, for the theorems about both ends together: what is written is served
--   at once.
-- - Cli (cli.py): the parsers `_serial` and `_version`. Proxy: what `_persona` builds of them; its child
--   `Command` goes from the options of the command line to that device. `Capture.Command` is
--   `_capture`, with `Speed`, `Event` and the name of a captured event.
-- - Firmware (firmware/main): `Protocol` is the codec of personas/eaf_protocol.cpp, `Persona` the class
--   `EafPersona` with the two callbacks of main.cpp with which TinyUSB delivers feature reports,
--   `Simulated` the class `SimulatedFocuser`, `Main` the functions of main.cpp beside them (`LoadSerial`
--   and the loop of `app_main`), `App` main.cpp as a whole, and `Descriptors` the data of
--   personas/eaf_descriptors.cpp. The persona is over any `Focuser`, as the Python device is,
--   so that the two can be compared on the same one.
-- - Base: the shared numbers, lists, bytes, integers and results. Float: Python's float as a type
--   with operations and the laws of IEEE 754 on finite values that the theorems use; its child
--   FixedPoint is a concrete arithmetic that meets them.
--
-- Numbers are natural or integer numbers of any size, as in Python; a byte is a number below 256,
-- and where that matters it is a hypothesis. Python's `x & 0xFF`, `length & 1` and shifts by whole
-- bytes are written as remainders and quotients. In the firmware a cast to a narrower type is a remainder
-- or a two's complement (`uint8`, `uint32`, `int32`), `|` of bytes that do not overlap is a sum, and
-- a product of `int32_t` that may overflow is a partial operation; that 64-bit numbers, and the sum of a
-- temperature and the bias, do not overflow is stated with the theorems or a hypothesis of them. The
-- arguments of a C++ call are computed in the order in which they are written.
--
-- Bounds and fuel. The loop of `feed` has the length of the buffer plus one as its fuel: a round
-- takes four bytes at least, so it is never used up. So does the callback's loop. The printing
-- of a decimal number has the number plus one as its fuel, more than its digits.
-- The loops of the bench tool that have a deadline take as fuel the field `readings` of `Os`, the number
-- of clock readings before the deadline passes; a theorem about their end has as hypothesis that this
-- number falls with each reading. Its loops without a deadline, which wait until the lens is at rest,
-- have the parameter `rounds`.
--
-- Not modelled: logging, printing, argparse, Facedancer's own enumeration (the descriptors are data),
-- opening and closing of files and of the tty, the USB library and the clock behind `capture`, the pty,
-- thread and child process of host/tools/fake_cef.py, and in the firmware TinyUSB with its configuration,
-- FreeRTOS's delays, two tasks at the same data (a callback and a round of the loop follow each other),
-- and the callbacks of main.cpp that return a constant or only log.
pub mod Base
pub mod Text
pub mod Float
pub mod Focuser
pub mod Persona
pub mod Simulated
pub mod Capture
pub mod Pinefeat
pub mod Cli
pub mod FakeCef
pub mod Probe
pub mod Proxy
pub mod Firmware
