-- ===== src/Lib.antt =====
-- A verification of the networking labs: the datagrams of lab 1, the file transfer of lab 2 over an
-- unreliable channel, the router of lab 3 and the learning switch of lab 4.
--
-- Switch is lab4-switch-Heccc257/{switch.cc, switch.h, types.h}. `EthernetSwitch` is the object: its
-- map from addresses to ports with the life that is left. `init_switch`, `aging` and `process_frame`
-- are `InitSwitch`, `Aging` and `ProcessFrame`; `mac_addr_to_long` is `macAddr2Long`. A frame is its
-- header, as nothing else of it is read.
--   Switch.Address    the number of an address
--   Switch.Aging      what `Aging` does to one address
--   Switch.History    the table against the history of the frames
--
-- Rtp is lab2-rtp-Heccc257/Lab2-RTP-Test/src.
--   Rtp.Crc           util.c: `crc32` and `compute_checksum`, with the static table as state
--   Rtp.Packet        rtp.h and rtp.cpp: the packet, its bytes, its constructors and `Damaged`
--   Rtp.Wire          datatrans.cpp: `sendRTP` and `revRTP`
--   Rtp.Receiver      receiver_def.cpp: `recvMessage` and `recvMessageOpt`
--   Rtp.Sender        sender_def.cpp: `sendMessage` and `sendMessageOpt`
--   Rtp.Connect       `initReceiver`, `initSender` and what ends a connection, and in its
--                     child Late a second copy of the ACK of START
--   Rtp.Channel       both ends over a channel that loses, delays, repeats and reorders datagrams
-- The two loops of each end differ in few places, so each end has one round (`round`, `turn`) that
-- takes what differs as arguments. `send_message` hands packets to the log of what was sent;
-- `Rtp.Channel.Step` lets any datagram of that log, or none, be what `revRTP` gives to a round of the
-- other end. Rtp.Channel.Protocol says what a pair of loops has to keep, and derives the theorems on
-- runs; Rtp.Channel.GoBackN and Rtp.Channel.Selective show that the two pairs keep it. Its children
-- Answered, Advance and Ending build the rounds by which a run gets to its end. Rtp.Channel.Connection
-- puts Rtp.Connect before and behind such a run. Such a run may take datagrams of any age;
-- Rtp.Channel.Recovery looks at a round of each end where all that was under way is lost for good.
--
-- Router is lab3-router-Heccc257/{router.h, router.cpp}. `Router` is the object and `Shared` its static
-- members; `router` is the handler, with a function for each kind of message.
--   Router.Address    `IPRev`, the ranges, the table of external networks, `dotDec2IP`, `CIDR2IP`
--   Router.Nat        `availAddrAllocator`, `releaseNATItem` and the translation of data packets
--   Router.Distance   the struct `DV`; in its child Network all routers together, which tell each other
--                     their rows, and in Epochs, Near and Converge what that comes to
--   Router.Text       the text of a packet: `toString`, and what `router` reads with `>>`
--   Router.Packet     packets as they lie in memory, and `router` on them
--   Router.Handler    what no message can break
-- `router` takes a message, which is what a packet says; `router_packet` reads it out of the bytes with
-- Router.Text and writes what `router` leaves there. The arrays of `DV` are
-- functions, as there are fewer than `MAXN` routers, and a cost is a natural number or -1, which closes
-- a link. A sum of costs that is beyond an `int` sets the flag `overflow`.
--
-- Ftp is lab1-myftp-Heccc257: ftp_client.cpp, ftp_server.cpp and src.
--   Ftp               src/datagram.cpp, src/datatrans.cpp and `endianRev`: datagrams
--   Ftp.Stream        `writeDgram` and `readDgram` over a connection
--   Ftp.Kinds         the makers of each kind of datagram
--   Ftp.Text          C strings, `istringstream` and `Parser_cmd` of src/util.cpp
--   Ftp.Files         `upload` and `download` of src/util.cpp
--   Ftp.Server        ftp_server.cpp: `serve` is what the loop of `main` does with a datagram
--   Ftp.Client        ftp_client.cpp: `client_round` is a round of the loop of `main`
--   Ftp.Session       both ends in conversation, and the client against any replies
-- How many bytes each call of `read` gives is an argument, and `write` is taken to accept all. A round
-- of the client is a `Talk`, which says what it writes and what it does with each datagram that it
-- reads; `converse` runs one against `serve`, each datagram arriving
-- whole; `session` does so for all lines that are typed. Ftp.Session.Bytes and Ftp.Session.Whole put the
-- bytes of the connection under both. A file system is a function from names to contents.
--
-- Bounds and fuel. Sequence numbers have 32 bits, and the theorems on runs ask that the file's bytes
-- and the window together stay below 2^32, so that no number comes back, and that the window is at
-- least 1 and below 2^31, so that its double fits. The loop of `upload` is run for two rounds, since
-- from the second on every round that does not end it is the same. The reading loop of lab 2 has one
-- round for each byte that is left and one more, the loop that sends as many as there are packets
-- unsent, the sliding loop as many as there are packets in flight, and the download loop one for each
-- slot and one more; the reading, the sending and the download loop are shown to end by their own
-- tests. A number is written with ten digits, which are enough for an `int`.
--
-- The array `acked` of `sendMessageOpt` is an argument, of twice the window's length where a theorem says
-- so; its length is an `int`, so that the source has it for windows below 2^30 only.
--
-- Not modelled: the sockets, the clock and the file system, which are arguments (what arrives, the
-- readings of the clock, the bytes of the files); a failed `fopen`, but for a file of lab 1 that is
-- not there; damage to a datagram that leaves its checksum right; the memory that is freed. The logs
-- on the standard error are left out, and of what lab 1's programs print only the listing is kept. Left
-- out too are `bytes2chars` and `chars2bytes`, which nothing calls, the opening of the sockets in lab
-- 1, the tests and the copy of googletest. A `quit` before `open`, which writes to no socket, counts
-- as a `quit`.
mod Prelude
pub mod Switch
pub mod Router
pub mod Ftp
pub mod Rtp
