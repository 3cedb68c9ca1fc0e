-- ===== src/Lib.antt =====
-- moonparty: a server that lets several browsers play one streamed game, and the Go library with
-- which it talks to the streaming server.
--
-- The server (internal/server) keeps a manager of sessions (internal/session/manager.go), of which
-- one at most is active. A session (internal/session/session.go) holds the peers that watch or play,
-- four player slots, and a queue of input packets. WebSocket clients and HTTP requests are handled
-- by internal/server/websocket.go and server.go: they join as spectators, are promoted to players,
-- send input and leave. The control stream (moonlight-common-go/control/stream.go) carries start
-- messages, requests for key frames, input and pings to the streaming server, and receives rumble,
-- HDR and termination messages. The input stream (moonlight-common-go/input/input.go) turns events of
-- mouse, keyboard, pen, touch and controllers into packets for it, and moonlight-common-go/crypto
-- wraps the ciphers, which the audio stream (moonlight-common-go/audio/stream.go) uses to decrypt the
-- packets that it queues for the decoder. The video stream (moonlight-common-go/video/stream.go) makes
-- frames of the packets that it receives. The package moonlight-common-go/fec codes data shards with
-- parity shards, from which lost data shards come back. The client of
-- moonlight-common-go/limelight/client.go brings these streams up, after the handshake that
-- moonlight-common-go/rtsp/rtsp.go does, and down again. The server keeps a WebRTC connection for each
-- peer (internal/webrtc/manager.go). Between the server and the library stands internal/moonlight: its
-- stream.go takes input from the session's queue and frames from the decoder's callbacks, and its
-- limelight/limelight.go holds the one client that the process has.
--
-- Which file models which part:
--   Base      lists, integers, association lists and bytes over the native numbers
--   Session   internal/session/session.go: one function per method, by the method's name. Pointers
--             are numbers into a store, because the map, the slots and the host share peer objects
--   Manager   internal/session/manager.go, likewise over a store of session objects
--   Server    internal/server/websocket.go and server.go: handle_web_socket, handle_message and one
--             function per HTTP handler; Server/History has the steps of the whole server
--   Rtsp      moonlight-common-go/rtsp/rtsp.go: Reading has the responses, Requests the requests, Setup
--             the negotiation of the ports, Sdp the offer. Printing is how a server writes a response
--   Limelight moonlight-common-go/limelight/client.go: Address and Handshake, and Start with Stop and
--             cleanup; Api has the methods that send input. A stream is whether its pointer is set,
--             and the sockets are parameters
--   Moonlight internal/moonlight/limelight/limelight.go: the active client and the calls passed on to
--             it. Play and Frames are internal/moonlight/stream.go, which turns packets of a
--             session's queue into events and keeps frames for the server; Forwarding is the loop
--             of internal/server/server.go that empties the queue; Events says what a packet asks
--             for, apart from how it is sent, and Wire reads the packet of a controller
--   Webrtc    internal/webrtc/manager.go: the map of connections, over a store of them
--   Control   moonlight-common-go/control/stream.go: Message has what is sent, Receive what is
--             received, Status the frame statistics
--   Crypto    moonlight-common-go/crypto/crypto.go: over the ciphers of Go's library as parameters,
--             whose documented laws are the hypotheses IsBlock and IsAead
--   Input     moonlight-common-go/input/input.go: Packets has the packets, Send and Devices the methods
--   Audio     moonlight-common-go/audio/stream.go: rounds of the receive, decoder and ping loops
--   Video     moonlight-common-go/video/stream.go: rounds of the receive and decoder loops, with the
--             buffer that the loop reads into and that the packets refer to
--   Fec       moonlight-common-go/fec/fec.go: Gf has the tables and their arithmetic, Matrix the
--             matrices and their inversion, Codec has New, Encode and Reconstruct. A matrix is the
--             function of its row and column, a shard the list of its bytes, a nil shard `none`
--   Tests     runs on concrete inputs
--
-- A method that holds the mutex of its object is one step. A panic is `none`, or `panic` where the
-- code has errors beside. Uuids, times and the success of a socket write or of a WebRTC call are
-- arguments. `IsNew` and `IsFresh` say that a uuid that the library draws has not been drawn before.
-- Texts are lists of byte codes, in ASCII. Loops run on fuel in five places: the search for a
-- slot, which the source bounds at 4; the loop of a batched scroll, whose distance to zero shrinks
-- by 120 in every round and is the fuel; the loop of modnn, whose argument shrinks in every round
-- and is the fuel; the loop over the headers of a response, which takes a line in every turn and
-- has more fuel than there are bytes; and the digits of a number, of which there are fewer than
-- the number and one.
--
-- Not modelled: JSON, routing, static files and flags; the WebRTC library, and the offers and
-- answers passed on to it; pairing and launching over HTTPS; the goroutines that move media; the
-- callbacks of the adapter that only pass their arguments on; the methods of the streaming client
-- that read a statistic of a stream; deadlines and log lines. Memory is taken to be there for every
-- allocation, also for the body of a response of any stated length. Signed counts and sums of events
-- do not wrap around; a datagram is taken to fit into the buffer that it is read into; the duration
-- of an audio packet that the audio stream is given is not negative.
pub mod Base
pub mod Session
pub mod Manager
pub mod Server
pub mod Rtsp
pub mod Limelight
pub mod Moonlight
pub mod Webrtc
pub mod Control
pub mod Crypto
pub mod Audio
pub mod Input
pub mod Video
pub mod Fec
pub mod Tests
