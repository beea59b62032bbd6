-- ===== src/Lib.antt =====
-- addrsyncd keeps one policy-routing rule for each address of the interfaces. It hears of addresses on
-- one netlink socket, asks the kernel for rules on another, and keeps the set of addresses for which it
-- owns a rule. This library models that program and proves what makes it correct.
--
-- The parts, with paths from the root of the repository:
--   * Codec, LinuxTypes: src/netlink/codec.rs and src/netlink/linux_types.rs. Messages and attributes are
--     lists of octets; `items` is the iterator over a packet, `parse_nlas` the walk over attributes, and
--     `NEXT_SEQ` an argument and a result. Integers are little-endian, as on the targets of the program.
--   * Rule: src/netlink/rule.rs. The operation, its message, the tracker of acknowledgements, and sending
--     and draining a batch (Rule.Apply).
--   * Dump, Cleanup: src/netlink/dump_engine.rs, src/netlink/cleanup.rs and src/netlink/raw_addr.rs. A
--     dump message by message, and the reader that finds the rules of the program in it.
--   * Addr, IpKey: src/netlink/addr.rs and src/ip_key.rs. The filters, the events and the snapshot of all
--     addresses. An `IpAddr` is its octets.
--   * KeySet: the hash set of keys, as a list whose order stands for the order of iteration, and the
--     sorting of the standard library.
--   * Config: src/config.rs. A text is its code points. Config.Toml reads the file line by line,
--     Config.Value the values, Config.Sections and Config.Load the options. A hash map is a list of pairs
--     whose order stands for the order of iteration. An error keeps what its text says as data.
--   * Cli, Control: src/cli.rs and src/control.rs. The command line, the search of /proc for the daemon of
--     a directory, and the wait for its end. Arguments are valid Unicode.
--   * Logger: src/logger.rs. The text of a line of the log, and the limiter of repeated lines.
--   * Pbr: src/netlink/pbr.rs. The other side is a `Kernel`: what the socket does with a message.
--   * Daemon: src/daemon/service.rs and src/daemon/service/. Daemon.Batch is batch_apply.rs,
--     Daemon.Resync and Daemon.Maintenance are resync_cleanup.rs, Daemon.Route and Daemon.Loop are
--     event_loop.rs. The record `Daemon` holds the keys and `EventLoopState` what the loop keeps.
--
-- How they interact: an event of the route socket (`handle_route_events`) becomes a pending operation;
-- `start_pending_batch` sends pending operations and `drain_rule_acks_once` commits the answers to the
-- owned keys; `drive_maintenance_slice` runs the startup cleanup, the resync and the shutdown cleanup as
-- jobs that wait for their batches; `drive_reactor` puts these together. Daemon.Loop.Reach has the
-- steps of the loop as a relation.
--
-- The configuration gives the filters of addresses their lists and the daemon its bounds; the command
-- line names the configuration, and a daemon is found again by the command line it was started with.
--
-- What comes from outside is an argument: the results of socket calls (a list of outcomes, each call
-- taking the next one), the times read, the entries of /proc, the file system, and the UTF-8 check and the parser of addresses
-- of the standard library. An `Instant` is a number of nanoseconds; past the end of a list of outcomes a socket has nothing more, or time is up.
-- Constants of libc have the values of the Linux ABI. An `i32` error number is its 32-bit pattern.
--
-- Fuel: the iterator and the attribute walk have one round more than there are octets, each round taking
-- an octet at least; the loops of a resync chunk have as many rounds as there are keys, each moving an
-- index. That these are enough is part of the theorems on them.
--
-- Not modelled: the system calls themselves (src/netlink/socket.rs, src/daemon/service/lifecycle.rs),
-- writing and flushing the log (src/logger.rs), the start of the background process and its pipe
-- (src/control.rs), src/app.rs and src/main.rs, the blocking cleanup, and the pool of operation vectors,
-- which only saves allocations.
pub mod Base
pub mod Error
pub mod IpKey
pub mod LinuxTypes
pub mod Config
pub mod Cli
pub mod Control
pub mod Logger
pub mod Codec
pub mod Rule
pub mod Dump
pub mod Cleanup
pub mod KeySet
pub mod Addr
pub mod Pbr
pub mod Daemon
pub mod Examples
