-- ===== src/Lib.antt =====
-- sms_relay: a verification library for the SMS relay daemon.
--
-- The daemon drives a GSM modem with AT commands over a serial port, decodes the messages that
-- arrive, forwards them, and serves a command line client over a socket. This library models the
-- core of it, bytes to bytes:
--
--   * Base: the shared names; Boolean tests on numbers (Base/Tests), lists with native lengths
--     (Base/Lists), bytes (Base/Numbers), bit operations as arithmetic (Base/Bits), results of
--     code that may throw (Base/Result), strings as bytes and their searches (Base/Text,
--     Base/Search).
--   * Transport: src/sms_relay/transport. Transport/RingBuffer is `RingBuffer` with its vector,
--     indices and mutex; Transport/LineParser is `LineParser`; Transport/UrcDispatcher is
--     `URCDispatcher` over any type of handlers; Transport/Serial is `SerialTransport`, whose handlers
--     take what the port and asio do as arguments.
--   * At: src/sms_relay/at. At/ResponseBuilder is the state machine `ResponseBuilder`;
--     At/Dispatcher decides with it whether a line is a response or a notification for the
--     `URCDispatcher`; At/CommandQueue is the queue of commands and promises; At/Commands the
--     texts of at_commands.h; At/Session composes them into `AtSession`, one function per handler,
--     and At/Session/Intake feeds it from the `LineParser`;
--     At/Session/Relay joins the transport to it; At/Session/Wrappers has the methods that send a
--     fixed command.
--   * Ipc: src/common/ipc, and both ends of it. Ipc/Protocol has the types, Ipc/Wire `IpcSerializer`,
--     Ipc/Payload `PayloadSerializer`, Ipc/Offsets the offset that a failed reader leaves, Ipc/Header
--     the sixteen bytes in front of a message. Ipc/Socket is a socket of the operating system with
--     the loop that receives from it; Ipc/Socket/Stream what such a socket promises. Ipc/Server has
--     the commands of `IpcServer` (src/sms_relay/ipc) over Sms/Service, Ipc/Server/Connection its
--     client thread, Ipc/Server/Slots its connections, start and stop. Ipc/Client is `IpcClient`
--     (src/sms_relay_cli/ipc).
--   * Pdu: src/common/pdu/pdu.cpp: Pdu/Hex, Pdu/Utf8, Pdu/Gsm7 with its
--     tables in Pdu/Gsm7/Tables, Pdu/Septets, Pdu/Ucs2, Pdu/SemiOctets, Pdu/Address,
--     Pdu/Timestamp, Pdu/Udh; Pdu/Decode is `decode` and Pdu/Submit `encode_submit`.
--   * Sms: src/sms_relay/sms/sms_service.cpp and its header. Sms/Message has the message, the entry of
--     the multipart cache and the key; Sms/Multipart `handle_multipart` and `cleanup_cache`;
--     Sms/Parse what is read in notifications and answers; Sms/Inbox the message cache and
--     `combine_multipart_messages`; Sms/Service the class itself over any `Modem`, the session as
--     one operation, with its background thread as rounds. A part of a message comes with two times,
--     that of the cleanup which begins its task and that at which the task has read it;
--     Sms/Service/Parts relates the tasks to such deliveries. Base/OrderedMap is `std::map`,
--     Base/Digits `std::stoi`.
--   * Config: src/common/app_config.h (Config/Types) and src/common/config_loader.cpp (Config/Validate,
--     Config/Load over any YAML library); Config/Valid describes the valid configurations.
--   * Forward: src/sms_relay/forward. Forward/Template is `TemplateRenderer`; Forward/Service is
--     `ForwardService` with `BarkTarget`, over any HTTP client and JSON library.
--   * Cli: src/sms_relay_cli. Cli/Arguments reads what a user types, Cli/Commands are the
--     command handlers, with what they print in Cli/Print and what they make of a response in
--     Cli/Responses; Cli/App is `CliApp` and `main`, Cli/Shell is `InteractiveShell`, Cli/Editor the
--     completion and colours of its input line. Cli/Commands/Service runs the handlers against Ipc/Server.
--   * Examples: runs on concrete data.
--
-- A class is a record of its fields and a method a function from state to state, under its name
-- in the source. A `std::string` or a vector of bytes is a list of numbers; the laws that need it
-- ask for bytes below 256 or septets below 128. Machine integers keep their wrap-around where it
-- can happen (`size_t` indices, lengths cut to 32 bits), and the laws bound buffers by 2 ^ 63
-- bytes, more than a process can hold. An exception is an `err` result, and so is a read past the
-- end of a vector. What a session does to the world is a log in its state: what it sent, the
-- promises it settled, the callbacks it made. The handlers run on one IO thread, so a history of
-- the session is a list of events, in any order.
--
-- Loops follow the list they consume. `LineParser::extract_lines` runs on fuel, one more than the
-- length of its buffer, since a round takes two bytes at least. `parse_udh` has one round more than
-- the octets of its header, of which a round counts two at least. `std::to_string` runs on twenty
-- digits, the most that 64 bits need. `replace_all` runs on one more than the length of its string,
-- of which a round takes a byte at least. The loop of `recv` runs on the number of bytes that are
-- missing, of which a round receives one at least. A client thread runs on a list of what it reads of
-- its flags in each round.
--
-- The threads of the IPC server appear as steps: a round of the accept loop, the cleanup of a client
-- thread, and the two halves of `stop` are one step each, in any order. What the client and the
-- server log is left out, unlike what the command handlers print.
--
-- Not modelled: asio (ports, timers and sockets are events and logs), the HTTP client, the signal
-- handlers and texts of help, the Windows branches, the main program of the daemon, and the callback
-- service, which no target of the build contains.
pub mod Base
pub mod Transport
pub mod At
pub mod Ipc
pub mod Pdu
pub mod Sms
pub mod Config
pub mod Forward
pub mod Cli
mod Examples
