-- ===== src/Lib.antt =====
-- p2p-transfer: peer-to-peer file transfer with a signaling server.
--
-- Two peers meet on a signaling server under a receive code, agree on a key, exchange WebRTC signals
-- through it and then transfer files on a direct channel. The server is one Node process: each
-- callback (a connection, a frame, a pong, a timer, a closing) runs to its end before the next one.
-- A callback is a function from the state to the next state, and a history is a sequence of them.
--
-- Server (src/server):
--   Server/State.antt: the state of server/index.ts: the maps of codes, sessions, limiters and
--     connections, the open sockets, and the peers. A peer is named by its number, which stands for
--     the identifier that nanoid makes, and the state maps numbers to peers, so that a code, a
--     session and the map of sockets share one peer as they share one object in the source. `Env`
--     holds what an event meets: the clock, the state, the buffer and the failures of each socket
--     as functions of the calls made on it, the Unicode class Cf, and the engine's toLowerCase.
--   Server/Sockets.antt: closing, timers and the count of connections. Server/Cleanup.antt: send,
--     notifyPeerLeft, endSession, restoreWaitingReceiver, cleanupPeer. Server/Pairing.antt:
--     register, connect, retryReceiver, badMessage. Server/Relaying.antt: relay and sendIceConfig.
--     Server/Events.antt: handleMessage, the frames, the timers and the end of a connection.
--   cleanupPeer and send call each other: a send that fails closes the peer, which cleans up and
--     sends to others. `cleanup_rounds` bounds that recursion by fuel; the fuel is one more than
--     the number of sessions, which is enough since each round that sends removes a session first
--     (Server/Cleanup/Termination.antt).
--   Server/Cleanup/Moves.antt and its children: the single changes that a cleanup is made of.
--     Server/Events/Invariant.antt: the well-formed states. Server/Events/Handlers.antt,
--     Preservation.antt, Relays.antt, Timers.antt and Reachable.antt follow them through all events, and
--     Deliveries.antt is about the messages that relay hands on.
--   Server/Policy.antt: server/policy.ts. Server/RateLimit.antt: server/rate-limit.ts.
--   Server/Admission.antt: capacity.ts, waiting.ts, prepair-attempts.ts, session-expiry.ts.
--   Server/Static.antt: the limiters and the byte reservation of the HTTP side.
--     Static/Balanced.antt: all reservations and calls of their release functions.
--
-- Shared code (src/shared):
--   Shared/Text.antt, FileNames.antt and Limits.antt: limits.ts. Shared/PublicManifest.antt:
--     public-manifest.ts. Shared/Codes.antt: wordlist.ts. Shared/Messages.antt: the types of
--     messages.ts. Shared/Chunks.antt: chunks.ts. Shared/SignalReplay.antt: signal-replay.ts.
--     Shared/SignalQueue.antt: signal-queue.ts. Shared/ControlWaiter.antt: control-waiter.ts.
--     Shared/Transfer.antt: the manifest match of transfer.ts, and basename of format.ts.
--   Shared/Json.antt: the values that JSON.parse makes. Shared/Base64.antt: the base64 tests of
--     messages.ts, against the encoding of RFC 4648 in Shared/Base64/Encoding.antt.
--     Shared/Control.antt: the control messages of transfer.ts and their parser. Control/Printed.antt
--     prints them, and Control/Conforming.antt describes the accepted ones without the parser's tests.
--     Shared/Protocol.antt: the validator isClientMessage of messages.ts. Protocol/Reading.antt: the
--     fields the server reads of a value that passes, with session texts named by a parameter.
--     Protocol/Manifests.antt and Typed.antt take its tests apart, and Allowed.antt compares the
--     test of manifests with the one of limits.ts.
--
-- Terminal client (src/cli):
--   Cli/Receiver.antt: the state of receiveFiles of cli/transfer.ts, and what other callbacks do to
--     it while a task waits. Cli/Receiver/Tasks.antt: sendControl, maybeResolveDone, maybeFinalize.
--     Cli/Receiver/Handlers.antt: handleControlMessage and handleBulkMessage.
--     Cli/Receiver/Events.antt: the receive queue, the timer, the end, and the reachable states.
--   A task is a function from the state to the state in which it returns or throws. At each await
--     the environment says whether the transfer fails meanwhile, whether the final cleanup runs too,
--     and with what the promise settles. The queue runs one task after the other. The opening and
--     sealing of shared/security.ts, the output files of cli/files.ts and the digests of files on
--     the disk are such answers, and the hash is a parameter. A failed publication is taken to leave
--     no file, and a published file to appear when publishPartFile returns: the final cleanup looks at
--     files only whose identity is set. A task is one event, so that the states inside a task, like the
--     one in which maybeResolveDone has cleared the timer and waits for its last message to be sealed,
--     are not states between events. A reservation keeps at most the size of the file, as cli/files.ts
--     cuts it.
--   Cli/Receiver/Triples.antt states the invariant and what tasks guarantee; Steps.antt, Keeping.antt,
--     Primitives.antt and Changes.antt are about single steps, Verifying.antt, Publishing.antt,
--     Completing.antt, Opening.antt, Beginning.antt, Handling.antt and Receiving.antt about the tasks,
--     Withdrawing.antt and its children about the files that maybeFinalize leaves, and Reachable.antt,
--     Outcomes.antt and Queue.antt about all events.
--
-- Browser (src/web): Web/FileNames.antt: web/file-names.ts.
--
-- Base.antt and its children hold the shared names: maps as association lists, Boolean tests,
-- lists measured by native numbers, and JavaScript numbers as far as the program tells them apart.
-- A text is the list of its UTF-16 code units. Tests.antt runs the theorems at concrete inputs.
--
-- Not modelled: the validators of server messages and of ICE servers, the serializer, HTTP requests
-- and files, shutdown, the cryptography, the sender and the file operations of the terminal client, and the user interface
-- of the browser. The messages that an
-- error carries for a reader are left out, an error being its code.
pub mod Base
pub mod Shared
pub mod Cli
pub mod Server
pub mod Web
pub mod Tests
