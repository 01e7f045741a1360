-- ===== src/Lib.antt =====
-- A PBFT replica (pbft/, in Go): a library of definitions translated from the code and of theorems
-- about them.
--
-- The replica, `pbftCore` (pbft/pbft.go), is one thread that takes events from a queue. For each,
-- `ProcessEvent` (pbft/core.go) calls a handler, which changes the replica's maps, calls its consumer
-- to broadcast, persist or execute, and starts or stops timers. Three phases order the requests
-- (pre-prepare, prepare, commit), a committed request is executed, every `K` requests make a
-- checkpoint that lets the replicas drop old certificates, and a view change replaces a primary that
-- does not answer.
--
--   Base             shared names, Go's uint64 and maps, decimal and base64 text, scanning, counting
--                    of replicas
--   Tools/Timer      the timer thread (pbft/tools/timer.go); Tools/Timer/Phases is the machine of
--                    its phases
--   Tools/Manager    the thread and the queue of the event manager (pbft/tools/events.go)
--   Mock/Persist     the store mockPersist (pbft/mock_utils.go)
--   Pbft/Messages    the message structs (pbft/messages.go) and index types (pbft/pbft.go)
--   Pbft/Core        `pbftCore` as the record `Core`; a method is a function `M` on it, which ends
--                    well or in a fault and leaves the state as it is at that point; calls on the
--                    consumer and the timers are appended to `out`
--   Pbft/Quorum      intersectionQuorum, primary, inW, inWV, updateViewChangeSeqNo
--   Pbft/Cert        getCert, prePrepared, prepared, committed
--   Pbft/Timers      startTimerIfOutstandingRequests, softStartTimer, startTimer, stopTimer
--   Pbft/PqSets      calcPSet, calcQSet
--   Pbft/Persist     persist..., Hash (pbft/utils.go), sign and verify (pbft/sign.go), innerBroadcast
--   Pbft/Calls       the three methods that close a cycle of calls, as a record of operations that the
--                    other methods take as a parameter
--   Pbft/Watermarks  moveWatermarks, resubmitRequestBatches
--   Pbft/Transfer    updateHighStateTarget, stateTransfer, retryStateTransfer
--   Pbft/Select      correctViewChange, assignSequenceNumbers (pbft/viewchange.go),
--                    selectInitialCheckpoint
--   Pbft/Views       sendViewChange, recvViewChange
--   Pbft/Normal      recvRequestBatch, sendPrePrepare, recvPrePrepare, recvPrepare, maybeSendCommit,
--                    recvCommit
--   Pbft/NewView     recvNewView, processNewView, processNewView2, fetchRequestBatches
--   Pbft/Checkpoints Checkpoint, recvCheckpoint, weakCheckpointSetOutOfRange,
--                    witnessCheckpointWeakCert
--   Pbft/Execution   executeOutstanding, executeOne, execDoneSync
--   Pbft/Replica     ProcessEvent, and SendEvent (pbft/tools/events.go); the cycle of calls is closed
--                    here on fuel
--   Pbft/Init        NewPbftCore, restoreState, restorePQSet, restoreLastSeqNo (pbft/pbft.go)
--   Pbft/Wire        the oneof fields of pbft/messages.go in a protobuf buffer, and the accessors
--   Pbft/Node        NodeInfo (pbft/pbft.go): what it sends, and what it answers to its replica
--   Pbft/Server      Server, handleConnection (pbft/server.go); Server/Running is a whole node
--   Pbft/Running     createRunningPbftWithManager (pbft/mock_utils.go): a replica behind its manager
--   Pbft/Transaction the transactions of pbft/types, and the requests of pbft/mock_utils.go
--   Main             the loop of main.go
--   Pbft/Steps       the atomic moves of a replica as a relation, and the methods as
--                    sequences of moves
--   Pbft/Invariants  invariants of the moves, and of a replica that processes events
--   Pbft/Ends        methods that end well, and how much fuel an event takes
--   Pbft/Hashes      the stored batches under their hashes
--   Pbft/Fixtures    small states; the modules named Tests run the code on them
--
-- How the code corresponds to the model. A Go map is a list of entries, and a `range` visits them in
-- the list's order: what holds of every list holds of every order. A pointer to a message is the
-- message, since no message is written to once it is sent; a pointer that may be nil is an `Option`;
-- a certificate, which is written to through its pointer, is updated in `cert_store`. uint64
-- arithmetic wraps round. Strings and byte slices are lists of bytes. Log lines are left out, and so
-- are the errors that handlers return, which are only logged. A division by a zero `K` or by no
-- replicas, which panics in Go, is not modelled; the constructor makes `N` at least 1. Durations are
-- numbers without a bound, and so are `N` and `f` of the configuration, which in Go are ints: negative
-- ones, and an `f` for which `3f + 1` overflows, are not modelled. The spaces that Sscanf skips in a
-- stored key are the blank and the tab. The map of checkpoints that selectInitialCheckpoint builds is
-- visited in the order in which they are first listed. The loop of assignSequenceNumbers runs `L` times; that it never ends where
-- `h + L` is the greatest uint64 is not modelled.
--
-- A round of a timer's `select` is an input to its state machine: a start, a stop, the end of the
-- countdown, the delivery of the event, or the exit channel; a case whose channel is nil is blocked.
--
-- Fuel is the depth of calls through the record of `Calls`. Where it does not reach, the method ends
-- in the fault `out_of_fuel` with the state it has then. The invariants are stated for any fuel, so
-- they speak of the states on the way too. More fuel than there are stored view changes is enough
-- for a view change, and while a batch runs for normal operation; that some fuel is enough for the
-- other events is not stated.
--
-- SHA3, protobuf encoding and, for a replica alone, the consumer's signatures, state and store and the
-- random choice of the byzantine mode are the fields of `Env`, without assumptions on them. The
-- buffer of the protobuf library and its codecs of messages are the record `Proto`, with its
-- documented behaviour in `IsProto`; whether a TCP address answers is the record `Net`. A connection
-- is the bytes that its first read gives, or an error; the model of the server is given the payload
-- that proto.Unmarshal leaves. The queue of the event manager is the sequence of what its `select`
-- receives.
--
-- Not modelled: LoadConfig (pbft/pbft.go), which reads a file; the flags of main.go; two threads that
-- run events on one replica at the same time, as main.go and its server may: main is modelled with the
-- events of the server in its pauses; String methods, descriptors and the messages BlockInfo and
-- Metadata of pbft/messages.go, which nothing uses; and the other test doubles (pbft/mock_utils.go).
pub mod Base
pub mod Tools
pub mod Mock
pub mod Pbft
pub mod Main
