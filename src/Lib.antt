-- ===== src/Lib.antt =====
-- The controller of virtual machines in this repository, modelled and verified.
--
-- A daemon (src/server) runs virtual machines through libvirt (src/monitor/libvirt). In each frame it
-- reads the usage of each virtual CPU from its control group; from the second frame on a market then
-- sells the cycles of the host for the next round: first a base share for each vCPU, from its
-- consumption and its trend, then an auction among those that want more, paid with what their machines
-- left unused before, then shares of the rest. The result is written as quotas into the control groups. Machines are described
-- by configurations in TOML (src/monitor/utils). A client (src/client) asks the daemon over a local
-- TCP connection (src/monitor/net) to start, kill and open machines.
--
-- Files, and the code that they model:
--   Prelude         shared names, Boolean tests, texts and their order, lists, pointwise relations,
--                   machine words
--   Floats          `float` and `double`: a parameter of the model, with their documented ranges
--   Libvirt.Cgroup  src/monitor/libvirt/controller/cgroup.cc: the limit file and the usage counter;
--                   Tree, Search: the search for the group of a machine
--   Libvirt.Vcpu    src/monitor/libvirt/controller/vcpu.cc: readings, rounds, history, slope, quota;
--                   History: the window of percentages; Usage: what a round reports, and quotas
--   Libvirt.Vm      src/monitor/libvirt/vm.cc: the machine, its constructors (Fresh, Settings), its allocation
--   Libvirt.Registry  src/monitor/libvirt/client.cc: the list of running machines; Search
--   Libvirt.Actions, Libvirt.Provision  src/monitor/libvirt/client.cc: what `provision` and `kill` do to the
--                   host (Booting), the files that they leave (Disk, Files), and when they end (Ready)
--   Libvirt.Frequency  src/monitor/libvirt/client.cc: the frequencies of the processors; Growth
--   Libvirt.Paths   what the source uses of `std::filesystem::path`
--   Server.Market   src/server/market/vcpu.cc. Sale: `sellBaseCycles` (Bounds, Base); Auction:
--                   `buyCycles` (Trade, Finish); Round: `run` and `reset` (Share, Guarantee, Result)
--   Server.Control  src/server/control.cc: the frames of the control loop (Frames), and its
--                   configuration (Settings)
--   Server.Vms      src/server/vm.cc: the handlers of the requests. Sessions: a handler, with the boot of the
--                   machine, on a connection whose writes succeed and whose reads each hand over all
--                   that they are asked for (Meaning, Wire, Refine, Started); Closed: one that is ended
--                   with nothing sent; Distinct: the names of the machines
--   Server.Threads  src/server/daemon.cc: the steps of the threads on the machines that they share;
--                   a provision has one before its boot and one behind it; Names
--   Client          src/client/main.cc: the requests, and what is made of the replies
--   Libvirt.Proto   src/monitor/libvirt/proto.hh: the numbers of the protocol
--   Net             src/monitor/net: addresses (Addr, with Packed and Printed) and streams (Stream, with
--                   Delivery)
--   Utils.Range     src/monitor/utils/range.cc: loops over numbers; Elements
--   Server.Rapl     src/server/rapl.cc: the energy counters; Total
--   Utils.Decimal   decimal numbers as the library of C++ prints and reads them; Value
--   Utils.Tokenizer src/monitor/utils/tokenizer.cc (Lexeme, Longest, Next, Separators, Separated,
--                   Last, Ready)
--   Utils.Config    src/monitor/utils/config.cc: arrays and dicts (Lookup, Access, Clone)
--   Utils.Toml      src/monitor/utils/toml.cc: the parser (Ordered, Ends, Total), and what it
--                   reads of a dump (Lexed, Tokens, Quoted, Written, Layout, Sections)
--   Utils.Dump      what json.cc, toml.cc and config.cc of src/monitor/utils write (Json, Toml, Print,
--                   Balance)
--   Tests           runs of the model, and the theorems at concrete inputs
--
-- State is passed explicitly. A class is a record, a method a function of the same name in the
-- spelling of this library (`updateBeforeMarket` is `update_before_market`). A pointer of the market
-- to a vCPU is the pair of the positions of its machine and of the vCPU. An `unsigned long` is a
-- number below 2 ^ 64 whose sums and differences wrap; a `long` is its bit pattern. `none` stands for
-- what the source leaves undefined or what ends it: a division by zero, a read out of bounds, or for
-- a wait that does not end. A host has fewer than 2,148 processors, so that their cycles fit an `int`.
--
-- Fuel: the loop of the auction has one round for each cycle in the market and one more, and each
-- round either sells a cycle or is the last. `next` of the tokenizer has the number of bytes that are
-- left and two more; on the text of an address, where nothing is skipped, one is enough. A loop over a
-- range has more than the distance of its ends. The parser recurses on fuel of its own, of
-- which twice the length of the text and four more are enough: each call reads a mark, or is the call
-- for a value behind one. A buffer of 2 ^ 63 bytes or more cannot be had, a smaller one can.
--
-- Not modelled: libvirt, sockets, threads, subprocesses and the file system, which are the system's
-- and whose results are arguments; interleavings within one operation on the list of machines;
-- a `read` that waits for a client which stays open and silent; the markets in cpu.cc and memory.cc,
-- whose bodies are comments; the libraries of other projects in src/monitor/foreign; logs.
pub mod Prelude
pub mod Floats
pub mod Libvirt
pub mod Server
pub mod Client
pub mod Net
pub mod Utils
mod Tests
