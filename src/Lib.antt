-- ===== src/Lib.antt =====
-- failover, a VRRP daemon (versions 2 and 3): a virtual router and everything that decides what it does.
--
-- A virtual router is one state machine (INIT, BACKUP, MASTER) behind a lock. Tasks receive VRRP, ARP
-- and NDP packets and tick a timer, and each handles what it gets while it holds the lock; the program
-- notifies the router of its start and its end. The router answers by sending packets and by asking
-- the kernel to add and delete its virtual addresses.
--
-- Files and what they model (paths from the repository's root):
--   Base, Float       numbers, bytes, lists and tests; the arithmetic of f32 durations
--   Error             src/error.rs, and results that can also be a panic
--   Version, Net      VrrpVersion, VrrpAddresses, AddressAction (src/lib.rs); addresses of std and pnet
--   Crates            the crates bytes, internet-checksum and ipnet, as records of operations with the
--                     laws that their documentation states; every theorem that needs a law takes it as
--                     a hypothesis, and Scenarios has functions for which all hold
--   Packet            VrrpPacket::encode and decode (src/packet.rs)
--   Arp, Ndp          the ARP and neighbor discovery messages (src/packet.rs)
--   StateMachine      src/state_machine.rs
--   Router            VirtualRouter and its methods (src/router.rs)
--   Observer          EventObserver::notify and notify_mut (src/observer.rs)
--   Handlers          the four handlers of packets (src/pkt/handlers.rs); Handlers.Reaction
--                     tabulates their transitions, Handlers.Protocol has those of RFC 3768 to compare
--   CoreTasks         one round of each task's loop (src/core_tasks.rs); CoreTasks.Processes, how the
--                     tasks begin and what their loops get; CoreTasks.Steps has the whole router as a
--                     world that takes inputs one at a time, in any order
--   Config            Config, validate_configs and load_mode (src/config.rs)
--   General           src/general.rs; its children MacVlan, Addresses and Kernel have what is asked of the
--                     kernel
--   Network           the senders of src/network.rs; Listeners, its listening sockets; Delivery, one
--                     advertisement from socket to handler
--   Run               the setup in run (src/lib.rs); Run.Serve, the whole of run, over what happens to
--                     it; Run.Serve.Course describes its course independently
--   Main              the program (src/bin/failover.rs), what its instances share, and two hosts that run it
--   Scenarios         tests, and each theorem at a concrete input
--
-- State and effects. An operation takes the router and what it reads of its surroundings (Env: the
-- interfaces, the time, the host's byte order) and gives an Outcome: the router after it, the effects
-- that it asked for, in order, and its result. A lock is a router with a flag that a panic sets. That
-- the tasks run at once is the order in which inputs come, since each is handled under the lock.
--
-- Numbers. Fields of machine width are natural numbers with the wrap-around written out; theorems that
-- need a field to fit its type say so. An Instant is in nanoseconds. An f32 duration is in 1/256 s, the
-- unit in which every duration of the program is whole, and no loss occurs below 2 ^ 24 units.
--
-- The loop of a task waits for a listener, whose own loop waits for its socket (recv). What the socket
-- does is a list of turns, one for each pass of the inner loop, and the outer loop is a recursion on fuel,
-- for which a unit for each turn is enough. All other loops are recursions on their lists or counts.
-- run takes what happens to it, in order: turns of the listeners, ticks, signals; a task that has ended
-- gets no more. That all tasks have ended is noticed when the next thing happens.
--
-- Not modelled: rtnetlink, socket2, libc, pnet and tokio, whose answers are arguments; the texts of logs
-- and errors; clap, serde_json and log4rs, whose answers are arguments; that a send fails, outside Network,
-- since the program only logs it; the randomness of a name; the tests of the source.
pub mod Base
pub mod Error
pub mod Version
pub mod Net
pub mod Crates
pub mod Packet
pub mod Float
pub mod StateMachine
pub mod Arp
pub mod Ndp
pub mod Router
pub mod Observer
pub mod Handlers
pub mod Config
pub mod General
pub mod CoreTasks
pub mod Network
pub mod Run
pub mod Main
pub mod Scenarios
