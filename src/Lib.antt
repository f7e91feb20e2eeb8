-- ===== src/Lib.antt =====
-- A verification library for lneto, a TCP/IP stack in Go without allocations on its data path.
--
-- The modelled part is the core of its TCP: what a connection does with sequence numbers, segments
-- and bytes, below locking and the network. A connection's handler (tcp/handler.go) owns a control
-- block, a byte ring for received data, a reassembly over that ring, a transmit queue and a policy,
-- mostly the retransmission timer. An incoming segment goes to the reassembly if it is ahead of the
-- next expected sequence number, and else to the control block, which accepts or refuses it; accepted
-- data is written to the ring, the reassembly then delivers what it held, the transmit queue drops
-- what was acknowledged, and the timer takes its measurement. Apart from it stands the codec of DNS
-- messages, which the clients of the repository call on what the network gives them, and the cache of
-- its ARP handler.
--
-- Files, with the sources from the repository's root:
--   Base and Base/: lists as slices, 8- and 32-bit words, the outcome of a call that may panic
--     (`Ran`), cutting and overwriting slices, a buffer seen from an index on (`rotate`), masks as
--     arithmetic.
--   Checksum: crc.go. Folds: against the sum that RFC 791 defines; Field: the field of a packet.
--   Validation: the validator of validation.go.
--   Internal/Ring: internal/ring.go. The definitions have the methods' names (`write_limited` is
--     `WriteLimited`); `End` is `stop`. Line, Round: what a ring holds; Write, Discard, Read,
--     Stage: what each method does; Queue: runs of calls against a bounded queue.
--   Tcp/Value: tcp/valuesize.go. Order: the comparisons on the circle of 2 ^ 32 values.
--   Tcp/Segment: flags, states and segments of tcp/definitions.go.
--   Tcp/Control: tcp/control.go and tcp/control_rcvhandlers.go. Block: the record and the small
--     operations; Incoming: `validateIncomingSegment` and `handleRST`; Recv: `Recv` and the handlers
--     of each state; Send: `Send`, `validateOutgoingSegment` and `PendingSegment`. The other files
--     prove: Cases (the ways through `Recv`), Transitions, Errors, Sending, Receiving, Challenge,
--     Peers, Steps and Handshake, Data, OppositeAck, Refusals.
--   Tcp/Rto: tcp/rto/timer.go. Estimate, Expiry, Karn.
--   Tcp/Reassembly: tcp/reassembly.go. Stream: what is held, against the peer's stream; Deliver and
--     Receive: `reassemble`; Place, Insert and Store: `store`.
--   Tcp/Sentlist: the list of sent packets of tcp/txqueue.go. Run, Acks: `RecvAck`; Sends:
--     `AddPacket`; Rewind: `packetContaining` and `truncateFrom`.
--   Tcp/RingTx: the transmit ring of tcp/txqueue.go. Regions: what it holds; Writes: `Write`; Sends:
--     `MakePacket`; Rewind: `RetransmitFrom`.
--   Tcp/SynCookieJar: tcp/syncookie.go. Accepts: `ValidateSYNCookie`.
--   Tcp/OptionCodec: tcp/options.go. Passes: the parser ends; RoundTrip: `PutOption` and `Next`.
--   Tcp/Frame: tcp/frame.go. Bytes: numbers in a buffer; Header: setters and getters; Validate.
--   Tcp/Handler: tcp/handler.go. Policy: the interface of tcp/policy.go, a parameter of what calls it;
--     Open: opening, resetting and closing; Receive and Accept: `Recv` and `Read`; Transmit:
--     `Send` and `Write`; Window: the window scale; OutOfOrder, InOrder, Outcome, Delivery: what an
--     arriving data segment does.
--   Dns: dns/dns.go. Dns: `NextLabel` and `visitAllLabels`; Walk: the walk ends. Name: names, with
--     Labels: what the bytes at an offset stand for, and Compressed: `Name.Decode`. Message: decoding
--     and skipping questions and resources, with Records and Skips: what they stand for; Parse:
--     `DecodeMessage`, with Grammar: a whole message. Append: `Message.Len` and `AppendTo`, with Bytes,
--     Encode and Layout: the bytes that are appended, and RoundTrip. Text: `NewName`, with Whole: it ends
--     and gives whole names, Printed: against `AppendDottedTo`, and Equal: `EqualString`.
--   Arp: arp/cache.go. Acquire: which entry is evicted. Handler: the operations on the cache of
--     arp/handler.go; Answers: a seeded address is found.
--   The files called Tests run the code on small inputs and apply each theorem once.
--
-- How the code is read. A method on a pointer returns the new value of its receiver; a Go panic is
-- `panicked`; an error is an `Option` of the errors that the code returns, and a pointer to an element
-- that may be nil an `Option` of the element. Sequence numbers and sizes are natural numbers with the
-- wrap at 2 ^ 32 written out, and theorems ask for values below it (`IsU32`) where they need it; counters of
-- 8 bits wrap at 2 ^ 8, also where the source reads them as signed. `int` is a 64-bit integer that stays
-- far from its bounds; arguments that the source checks for being negative are natural numbers. Loops
-- are recursion on the list that they walk or on the rounds that are left; the parser of options
-- runs on fuel, for which one pass per byte and one more is enough, and so does the walk along the
-- labels of a name, for which a pass over the message for each of ten pointers and one more is enough.
-- A slice that `DecodeMessage` fills is the list of the entries that it has the capacity for. The clock
-- of the timer is the argument `now`.
--
-- Not modelled: logging and printing, the locks, deadlines and sleeps of connections, listeners and
-- pools, the records' setters and printing in dns/, ARP frames, and the other protocols of the repository. `RecvACK` and
-- `RetransmitFrom` of the transmit ring and `Send` of the handler are modelled, and their effect on the
-- regions of the ring is not proved yet.
pub mod Arp
pub mod Base
pub mod Checksum
pub mod Dns
pub mod Internal
pub mod Tcp
pub mod Validation
