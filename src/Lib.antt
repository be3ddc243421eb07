-- ===== src/Lib.antt =====
-- The chat server of this repository: framed TCP messages over epoll, a task runner that orders the
-- work of a tick, and the classes that build the servers on them.
--
-- Parts of the program and their models:
--   src/libs/communication.{h,cpp}, class Communication: Comm. A frame is four hexadecimal digits and
--     a payload. Comm/Header is what std::stoul and snprintf("%04x") do with a header; Comm/Stream is
--     the loop of recv_frame that takes frames from the bytes read; Comm/Buffers has recv_frame,
--     send_frame, broadcast and clear_buffer over the map rbuf and the system.
--   src/libs/connection_tracker.{h,cpp}, class ConnectionTracker: Tracker. The client set and an epoll
--     instance; one function for each method, with each throw as a value.
--   src/libs/task_runner.{h,tpp}, class TaskRunner and AsThrottle: Tasks.
--   src/libs/producer_consumer.{h,tpp}, class ProducerConsumerQueue: Queue. Each method holds the
--     mutex, so an execution of several threads is a list of calls; wait_and_pop is the call once its
--     condition holds, and `none` while it does not.
--   src/libs/util.{h,cpp}: Util is hash, Util/Errors the exceptions with their texts, which Effects has
--     as one constructor for each place that throws. src/libs/json.{h,cpp} and frees: Json/Free.
--   src/server/server.cpp: Server/Main is its command line, its signals and main. The signals are given
--     for each round of the loop; Server/Main/Serving and Server/Main/Stops are the end of the server.
--   src/server/user_manager.{h,cpp}, class UserManager: Server/Users.
--   src/server/server_base.{h,cpp}, class ServerBase: Server/Base (handlers and deletion) and
--     Server/Base/Life (network, constructor with its tasks, loop, destructor). Its virtual methods are
--     a record of functions, Hooks; a derived class's fields are a parameter.
--   src/server/typed_frame_server.{h,cpp}, class TypedFrameServer: Server/Typed.
--   src/server/chat_server.{h,cpp}, class ChatServer: Server/Chat. Its multimap of messages is a list in
--     the order of the keys, new entries behind those with an equal key. src/libs/dto.h: Dto.
--   src/server/channel.{h,cpp}, class Channel: Server/Channel, and Server/Channel/Worker for
--     resolve_pool and the worker's loop. The room's fields are Room; a report to the
--     lobby is added to the list `reported`; waiting for pool_mtx is the outcome `hangs`. A room
--     whose stop_flag is not set is taken to have a worker that goes on, so that the destructor, which
--     joins the worker, hangs where the pools are locked; what the worker does in the round in which
--     it is joined is not part of the destructor.
--   src/server/channel_server.{h,cpp}, class ChannelServer: Server/Lobby (its channels and the choice
--     of one), Server/Lobby/Handlers and Server/Lobby/Upkeep (the task of each second, constructor and
--     destructor). A pointer to a channel is its number in the map `channels`; a call through it
--     changes the entry. The map is a list in the order in which it is walked.
--     Server/Lobby/Rejoin is a request for another channel from the room that gets it to the pools of
--     both, Server/Lobby/Release/Reach the life of the lobby and its rooms as a step relation, in which
--     a step passes what a room has reported to the lobby's queue.
--   src/client/client.cpp and src/client/client_win.cpp, the clients: Client. What both do alike is
--     modelled once: Client/Arguments (host= and port=), Client/Frames (send_frame, recv_frames) and
--     Client/Editor (keys and requests). Client/Linux is print_line and the answer to the join request,
--     Client/Linux/Loop the handshake and the loop of poll, Client/Linux/Terminal the modes of the
--     terminal, Client/Linux/Main the program from its start to its exit; Client/Windows is the
--     client's own reader and writer of JSON and its display, Client/Windows/Loop the loop of select,
--     Client/Windows/Terminal the console and WSAStartup, Client/Windows/Main the program. The state
--     is the global variables with the text that std::cout was given, the bytes `acc`, and the
--     system, a record Host of calls; jansson is the record ClientJson. A throw that nothing catches
--     ends the process, which is the outcome `hangs`.
--
-- Conversation joins a client and a server: the requests that one sends are the messages that the
-- other queues. Client/Sent is what a client's socket gets. Json/Grammar says which texts are JSON
-- objects, Client/Quoted that a message request is one.
--
-- Json is what the servers use of jansson, a parameter without laws.
-- Os is the operating system: a record of calls, which is a parameter of every definition that uses
-- them; Os/Laws states what the documentation of recv, send, close and epoll promises, as hypotheses.
-- Tests/System is a system for which they hold. Effects is a state monad whose result is a value, a
-- thrown exception, or a call that does not come back.
--
-- Numbers and fuel: descriptors are integers, lengths and times natural numbers, with the wrap of
-- size_t, uint32_t and uint64_t written out where the code can reach it; header values are the
-- unsigned long of std::stoul, cut to 32 bits. Bytes are natural numbers. The loop that parses frames
-- takes more steps than there are bytes, which is proved enough; the loop of recv is given a number of
-- reads, which is proved enough when it exceeds the number of bytes that can come. The loop of
-- send_frame takes more rounds than there are bytes, which is enough, since it throws when a call
-- sends nothing. The clients' loop of recv_frames takes more rounds than there are bytes too: a round
-- erases a byte at least, but for a length that wraps to nothing, where the loop has no end. The
-- handshake and the loops over socket and keyboard end with the connection only; they are given a number
-- of rounds. std::unordered_set is a list without duplicates.
--
-- Not modelled: the text that is logged, and what the clients say before their screens are cleared;
-- allocation failure; a signal before main has set g_server, which is ignored, and one that the
-- clients get.
pub mod Base
pub mod Effects
pub mod Client
pub mod Comm
pub mod Os
pub mod Tracker
pub mod Queue
pub mod Tasks
pub mod Util
pub mod Server
pub mod Conversation
pub mod Json
pub mod Text
pub mod Dto
mod Tests
