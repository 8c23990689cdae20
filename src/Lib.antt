-- ===== src/Lib.antt =====
-- CxxBus is a C++ library for D-Bus: it turns values into messages, messages into bytes, and bytes
-- back into messages and values, and keeps what a connection knows about names and subscriptions.
-- The parts, and the files that model them:
--
--   TypeCodes: the one-character type codes and the predicates on signatures (src/DBusHelpers.cpp).
--   Names: the classes of validated strings (src/DBusTypes.cpp). Names/Paths and Names/Dotted say
--   which texts they accept.
--   Codec: marshalling and unmarshalling (src/DBus.h). The templates of the source recur on a C++
--   type; here Codec/Types has codes `Ty` of these types and `Value t` for their values, and
--   `marshal` and `unmarshal` recur on the code. Marshal holds the Marshal functions, Unmarshal and
--   Variants the Unmarshal functions, Bytes the padding and the memory copies. A buffer is a list of
--   bytes, the pointer of the reader a number that wraps at 2 ^ 32, and `size() - pointer` wraps at
--   2 ^ 64. Layout, Appending, Containers and AppendingAll show what marshalling does to a buffer;
--   Fits says which values can travel; Reading, Header, Packed, Arrays, Pairs, Maps and Entries read them
--   back; Signatures is about the signatures of types; Room and Totality bound what marshalling
--   adds; Bounds and Termination say where the readers look, and that their loops end.
--   Message: outgoing messages (src/DBusMessage.h, src/DBusMessage.cpp). `serialize` is
--   CreateDBusMessage; Building has the factory functions and setters, Described and Fields the
--   header fields, Sound and Wire what they are marshalled to.
--   Incoming: incoming messages (src/IncomingDBusMessage.cpp). `unmarshal_header` is
--   UnmarshalDBusHeader; Required says what it makes sure of.
--   NameCache: DBusNameCache (src/DBusNameCache.txx). Sets has its containers, Ownership the view of
--   it as a record of who owns what.
--   MatchRule: DBusMatchRule (src/DBusMatchRule.cpp). Building has the builder, Paths and Prefixes
--   the pieces of paths, Arguments the walk over a message body, Matching the function Matches,
--   Agreement what a match means, VariantArguments what variants do to the walk,
--   Empty when there is no rule text.
--   Connection: the state machine of src/DBusConnection.txx, which calls all the parts above.
--   Channels is the interface to the channels of boost::asio. Replies has the table of reply
--   channels, and Calls the interleavings of the coroutines that send calls with the loop that
--   handles replies: Defs has the step relation and what holds in every state, Taken, Handed,
--   Answers, Received, Slots and Kept show that the steps keep it, Frames and Progress that
--   replies arrive, Unknown and Refused that nothing is taken for a reply to a call that is over,
--   Leaks what a failed call costs. State and Requests have the requests to the bus, Sending what a request does, Handshake connecting, Welcome what it sends, Waiters those
--   who wait for it, Registry and NameLists the two registries, and Rules, OwnedNames, Closing
--   and Farewell what becomes of the registries. Dispatch is HandleReadMessage, Handlers and
--   Signals who it runs. Reading is ReadLoop, Framing compares it with what serialize sends.
--   Address: ParseDBusAddress and HexEncodeString (src/DBusHelpers.cpp).
--   Base: what all parts share. Tests: runs, and the theorems at concrete inputs.
--
-- Outcomes: a thrown exception is `err` with the class of the exception; a read or write outside a
-- buffer, undefined in C++, is `err out_of_bounds`; a coroutine that waits and is not woken is
-- `err suspended`; a template that does not compile at a type is `err no_instance`. Loops whose end depends on the bytes are run on fuel. The loops over arrays
-- and maps get one more than the length field says, and a round that reads a value reads a byte or
-- more; the round trips below hold with that fuel, so it is enough for what was marshalled. The
-- walk over a variant gets a round for each character of its signature and each byte of the buffer;
-- pointers that wrap around can use up any fuel. WalkSignature takes its fuel as an argument.
--
-- A number is its bit pattern, also a signed one or a double. Map keys that are doubles, std::array
-- and the big-endian byte order are not modelled. A Variant that is to be marshalled is its
-- signature, its alignment and the function that appends its data.
--
-- A channel of boost::asio holds what has been sent and not yet received, and gives the oldest first.
-- What async_write makes of the bytes, what the bus answers to a request, and what the coroutines of
-- the user make of a message are parameters. In the step relation a run of a coroutine from one
-- await to the next is a step; it is assumed there that a peer answers a call at most once, and that
-- fewer than 2 ^ 32 messages are sent. The requests to the bus run one after another. The read loop
-- is run on fuel: one more than there are bytes is enough for any stream, and one for each message
-- for a stream of messages. It passes over a message with an exception, and stops at one whose
-- reading is undefined or endless, which `Heard` keeps apart. The order in which an unordered map
-- keeps its entries is a parameter of the registrations.
--
-- Not modelled: the hops between contexts and what runs on another context than the user's, the
-- synchronous variants of the operations, the handlers of onDisconnected, a connection that is
-- destroyed while it connects, logging, the names of types, and the texts of errors.
pub mod Base
pub mod TypeCodes
pub mod Names
pub mod Codec
pub mod NameCache
pub mod Message
pub mod Incoming
pub mod MatchRule
pub mod Connection
pub mod Address
mod Tests
