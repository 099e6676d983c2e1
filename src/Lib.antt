-- ===== src/Lib.antt =====
-- mod_audio_stream streams the audio of a FreeSWITCH call to a websocket server and takes messages
-- back. This library models the path from the frames of a call to the text on the socket, the path
-- from the socket to a message and on to the caller's ear, and the life of the connections that
-- libwebsockets drives.
--
-- The program's parts, and the file that models each:
--   Base64         src/base64.hpp: the codec of the payloads, one function for each expression of
--                  the loops; an unsigned char is a number modulo 256.
--   SwitchBuffer   the interface of FreeSWITCH's switch_buffer, which the module calls: operations,
--                  laws, and a list that meets them. The other files are generic in it.
--   StreamBuffer   class Buffer of src/stream_utils.hpp and src/stream_utils.cpp: the frames
--                  between the media thread (write) and the socket (read). 32-bit counters wrap.
--   Json           the trees that cJSON builds; the printer is a parameter.
--   ClientEvents   generate_json_data_event of src/stream_utils.cpp: START, MEDIA and STOP.
--   Receive        LWS_CALLBACK_CLIENT_RECEIVE of src/audio_pipe.cpp: the receive buffer, and the
--                  message that the callback is given as a C string, up to its first NUL.
--   AudioPipe      the members of class AudioPipe (src/audio_pipe.hpp), its constructor and its
--                  small methods.
--   Writeable      LWS_CALLBACK_CLIENT_WRITEABLE of src/audio_pipe.cpp: which message a turn sends.
--                  One function for each block of the handler, an Option where it may crash.
--   Connections    the static members of AudioPipe: the pending lists, the other callbacks, the
--                  timer and the methods that the threads call. A World holds the living pipes by
--                  address and a log of effects; `none` is a fault (a deleted pipe, a null vhost, a
--                  failed assertion). Connections.Steps puts the operations in any sequence.
--   ConnectionManager  class ConnectionManager of src/connection_manager.hpp and
--                  src/connection_manager.cpp: the streams, their servers, failover and health.
--                  ConnectionManager.Calls puts the calls in any sequence.
--   ConnectionPool class ConnectionPool of the same files.
--   Checkpoints    the linked list stream_checkpoints_t of src/mod_audio_stream.h, over addresses:
--                  what processCheckpointEvent adds and the media callback removes.
--   Playback       the way back, src/lws_glue.cpp and src/mod_audio_stream.c. Playback.Incoming has
--                  processIncomingMessage and what it calls, Playback.Frames the case
--                  SWITCH_ABC_TYPE_WRITE_REPLACE of the media callback. A Session holds the fields
--                  of private_data_t that they use and the calls of addEventBuffer and of the
--                  response handler that were made; `none` is a fault. Playback.Run puts messages
--                  and frames in any sequence.
--   Uri            parse_ws_uri of src/lws_glue.cpp: the address of the server.
--   Sessions       a call's streams: private_data_t and media_bug_callback_args_t of
--                  src/mod_audio_stream.h by address, the values of the channel, and the pipes of
--                  Connections. Sessions itself has stream_session_cleanup of src/lws_glue.cpp and
--                  the case SWITCH_ABC_TYPE_CLOSE of the media callback, Sessions.Events
--                  eventCallback, Sessions.Commands what src/mod_audio_stream.c does for the
--                  commands, Sessions.Start start_capture with stream_data_init, Sessions.Api the
--                  command line (stream_function), Sessions.Media stream_frame with the cases of
--                  the media callback that run it.
--   MessageQueue   buffered_message_t and the priority queue of src/adaptive_buffer.hpp, as a list.
--   AdaptiveBuffer class AdaptiveBufferManager of src/adaptive_buffer.cpp: what a stream's messages
--                  are queued in. AdaptiveBuffer.Runs puts the calls in any sequence.
--   PacketLoss     class PacketLossRecovery, and JitterBuffer: class JitterBuffer of the same file.
--   OpenaiAdapter  src/openai_adapter.c: the messages of the OpenAI server and those that are made
--                  for it, over the interface of cJSON; nothing in the repository calls them.
--   Doubles        the arithmetic of double, which these take as a parameter.
--   Common         helpers: lists with the native length, tests, words, the texts of strings.
--
-- How they interact: stream_frame writes the frames of the call to a Buffer; lws_callback asks
-- Writeable what to send, which reads a Buffer through ClientEvents, which encodes the frame with
-- Base64. The other reasons of lws_callback move a pipe through its states and report to
-- m_callback, which hands a message that Receive put together to Playback. m_callback is
-- event_callback of Sessions.Events, which finds the stream's context and hands a message on to
-- Playback; a command line goes through Sessions.Api and Uri to Sessions.Start, which makes the
-- pipe and puts it on the list that Connections works off. The manager and the pool of connections
-- stand by themselves, and so do the buffers of src/adaptive_buffer.cpp.
--
-- Bounds: a decimal number is printed with fuel 20, enough for any 64-bit number below 10^20.
-- Fragments have at most 1024 * 32 bytes, the rx_buffer_size that lws_service_thread registers.
-- The codec's lengths wrap at 2^32 and 2^31, so its round trip is stated for up to 1610612733 bytes.
-- Times are microseconds, far below 2^63, and nanoseconds in the buffers of
-- src/adaptive_buffer.cpp. Sequence numbers are not wrapped: an int does not reach 2^31 in a call.
--
-- Assumed: names fit their arrays in private_data_t; malloc and realloc succeed; texts are shorter
-- than 2^31; each operation runs alone, as the mutexes and the one service thread of a connection
-- make it; the deleted and the living pipes have different addresses; connect_client's assertions
-- are compiled in; a frame's samples are half its bytes, and the lock of the buffer is waited for.
--
-- Loops over the checkpoints take fuel; a round for each checkpoint and one more is enough.
--
-- Not modelled: the wait in dequeue_message, src/adaptive_buffer_wrapper.cpp, the configuration and
-- session.update of src/openai_adapter.c, the module's loading and its configuration file in
-- src/mod_audio_stream.c; the creation of the contexts and threads, basic authentication, logging,
-- and what libwebsockets, cJSON, speex and FreeSWITCH do.
pub mod Common
pub mod Base64
pub mod SwitchBuffer
pub mod StreamBuffer
pub mod Json
pub mod ClientEvents
pub mod Receive
pub mod AudioPipe
pub mod Writeable
pub mod Connections
pub mod ConnectionManager
pub mod ConnectionPool
pub mod Checkpoints
pub mod Playback
pub mod MessageQueue
pub mod OpenaiAdapter
pub mod PacketLoss
pub mod Doubles
pub mod JitterBuffer
pub mod AdaptiveBuffer
pub mod Uri
pub mod Sessions
