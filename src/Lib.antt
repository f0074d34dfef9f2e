-- ===== src/Lib.antt =====
-- Stegotorus hides the traffic between a client and a relay in innocent-looking connections. The chop
-- protocol (src/protocol/chop.cc) cuts a circuit's byte stream into numbered, encrypted blocks, sends
-- them over several connections, and puts them together again on the far side; the steganography
-- modules (src/steg) disguise each connection. This library models the layer of blocks
-- (src/protocol/chop_blk.h, src/protocol/chop_blk.cc), the base 64 codec that steganography modules
-- use for text (src/base64.cc), the SOCKS server that a client's browser talks to (src/socks.cc), of
-- the circuits themselves the sending and receiving of single blocks, and of the steganography modules
-- those that hide a message in a file or in a cookie, with the cache of the files.
--
-- Common: the names of the libraries that all modules share, machine words (uint8_t, uint16_t and
--   uint32_t are natural numbers with `%` written out), C arrays as functions of the index, and
--   `Outcome`, which tells a call that returns from one that `log_assert` or `log_abort` ends.
-- Common.Evbuffer: libevent's buffers, which are not part of the repository. Their functions are a
--   parameter of what calls them; theorems assume their documented results (`IsReliable`).
-- Block.Opcode: `opcode_t`. Block.Header: `class header`; `decode` is the constructor from the wire,
--   and the AES cipher of one block is its parameter. Block.Header.RoundTrip: its codec.
-- Block.Ack: `class ack_payload`; `decode` is again the constructor from the wire. Block.Ack.Marks:
--   the window of received blocks. Block.Ack.Wire: the wire format.
-- Block.Reassembly: `class reassembly_queue`. Block.Reassembly.Stream: its contract, and the buffer
--   against it call by call. Block.Reassembly.Order: runs of calls. Block.Reassembly.Acks: `gen_ack`.
-- Block.Transmit: `class transmit_queue`; the AES-GCM encryption is a parameter. Block.Transmit.Discard:
--   what an acknowledgment takes off the queue. Block.Transmit.Window: the window of numbers.
--   Block.Transmit.Send: what goes to the wire.
-- Base64: the classes `encoder` and `decoder`; a call of `encode` or `decode` is a run over the bytes from
--   a label of the source's loop, with its local variables as arguments, which are saved in the object
--   where the piece ends. Base64.Alphabet: `encode1` and `decode1`. Base64.Digits: the two tables.
--   Base64.Feed: the same machines with all their state in the object. Base64.RoundTrip: the codec.
--   Base64.Streaming: pieces.
-- Socks: `struct socks_state_t`. Socks.Request, Socks.Version4, Socks.Negotiation, Socks.Handle and
--   Socks.Reply: the functions of src/socks.cc in the order of their calls. Socks.Parse, Socks.Parse4 and
--   Socks.Partial: requests. Socks.Machine and Socks.Session: the state machine. Socks.Conversation:
--   a client from its greeting to the reply.
-- Chop: `struct chop_circuit_t`, over the queues of Block. Chop.Timers: its two intervals; the results of
--   `rng_range_geom` (src/rng.cc), which computes in floating point, are a parameter. Chop.Pick:
--   `pick_connection`; a connection is what its steganography module offers, a function. Chop.Pick.Scan
--   and Chop.Pick.Best: the best offer. Chop.Send: `send_targeted`, `send_targeted_steg_data` and
--   `send_special`; whether a connection takes a block is the parameter `deliver`. Chop.Send.Sizes and
--   Chop.Send.Sent: the block. Chop.Send.Loop and Chop.Send.Ends: the loop of `send` over the upstream's
--   data, with a bound on its rounds of one more than the bytes, since each round but the last sends one.
--   Chop.Retransmit: `retransmit`, which `send` repeats. Chop.Retransmit.Again: what it sends.
--   Chop.Receive: `recv_block` and `process_queue`, up to its test of `sent_error`; whether the connection
--   layer shuts the upstream down at once is the parameter `closes`. Chop.Receive.Settle:
--   the end of a round. Chop.Receive.Deliver and Chop.Receive.Drain: what reaches the upstream.
-- Steg: the modules of src/steg/http_steg_mods that hide a message in a cover, a file of a web page.
--   Steg.Memory: what they write into the cover, on a machine of 64 bits that stores the low byte first;
--   an access behind a buffer is the result `behind`, a shift into the sign of an int `overflows`.
--   Steg.Memory.Places: what is read back of it.
--   Steg.Js: the search of src/steg/payload_server.cc for digits in a script. Steg.Js.Block and
--   Steg.Js.Cover: src/steg/http_steg_mods/jsSteg.cc; `past` is the character behind a buffer, which the
--   search looks at, and sscanf a parameter. Steg.Js.Similar, Steg.Js.Search, Steg.Js.Offset, Steg.Js.Blocks
--   and Steg.Js.RoundTrip: the search finds the same places in the cover that was written.
--   Steg.Gif: gifSteg.cc; `beyond` is what its search finds behind a cover of no bytes. Steg.Jpg:
--   jpgSteg.cc. Steg.Text: the searches for text. Steg.Pdf: pdfSteg.cc, over zlib as a parameter.
--   Steg.Png: pngSteg.cc and pngSteg.h. Steg.Gif.RoundTrip, Steg.Jpg.RoundTrip, Steg.Pdf.RoundTrip and
--   Steg.Png.RoundTrip: a message through them.
--   Steg.Cookies: src/steg/b64cookies.cc and the cookies of src/steg/http.cc; the results of `rand` are a
--   function of the number of the call. Steg.Cookies.RoundTrip: data through a cookie.
--   Steg.PayloadLruCache: `class PayloadLRUCache`, with the cached function and the keys' equality as
--   parameters. Steg.PayloadLruCache.Keys, Steg.PayloadLruCache.Invariant, Steg.PayloadLruCache.Calls and
--   Steg.PayloadLruCache.Runs: its state, its calls, and sequences of calls.
-- Block.Tests, Block.Transmit.Tests, Base64.Tests, Socks.Tests, Chop.Tests and Steg.Tests: concrete runs.
--
-- A member function is a function from the object to its result and the new object. The loop of
-- `gen_ack` takes a bound of 256 rounds, since its eight-bit counter is back at its start after 256;
-- the loop of `process_queue` takes a bound of 257, since each round but the last empties one of the 256
-- places of the queue; the loops over a script, a file and the text of a cookie take its length, since
-- each round passes a character; the loops of `process_ack` take the number of their rounds, with the
-- tests of the source kept.
-- Memory that runs out inside libevent is an operation that gives `none`; freeing is not modelled.
-- What is printed to the log is left out. The runs of the reassembly queue are kept below 2^32 - 256
-- calls, so that sequence numbers do not wrap, which is what chop_blk.h requires of a circuit.
--
-- An array of the state, as `addr` of a SOCKS request, is the list of all its bytes; a call of libevent
-- whose result the code does not test leaves its buffer as it was where it fails. inet_ntop, inet_pton,
-- the numbers of errno and the contents of stack memory that nothing wrote to are parameters.
--
-- The receiving side of a circuit calls `send_special` and `retransmit` as they are modelled; `send` as a
-- whole and what a steganography module does with its data are the fields of `Sender`. A theorem that
-- such a call returns rests on a condition on the sending side, `Safe`, that the calls keep (`Keeps`).
--
-- Not modelled: the rest of src/protocol/chop.cc (`send` around its loop, timers, the sending of
-- acknowledgments, handshakes and configuration), the steganography modules that write other files or
-- drive connections, cryptography, compression, the network, configuration and the command line, which
-- are mostly calls of libevent, OpenSSL, curl and the operating system.
--  2^32 - 256 of them, are those accepted as number 0, 1, 2 and so on, in this order.
--  `Stream`, which keeps every block under its own sequence number.
--  the last one, moves the queue behind its number and drops exactly the blocks that it reports.
--  next number with its header, keeps the window and leaves the blocks that were out.
--  bit, is read back from its wire format as it was.
--  format, whatever the receive window is.
--  reliable libevent and ciphers that are undone: the receiver reads its header from the first sixteen
--  bytes, and the rest unseals to its data and the padding of zeros.
--  adds that block and no other to those reported as received.
--  in the expected range and without its first bit.
--  `gen_ack` abort.
--  `handle_socks` all return; the answers are SOCKS_INCOMPLETE any number of times, then nothing, one
--  SOCKS_GOOD, or a failure and SOCKS_BROKEN for ever.
--  request behind it, is answered SOCKS_GOOD in one call, which takes both and no more and stores the
--  target.
--  address and port behind the status of the error.
--  without line breaks, where the three characters that it puts in are fit for that.
--  buffer exactly, and its family, text and port are stored.
--  left in the buffer.
--  answer says what the state has become.
--  exactly, with the name behind the user.
--  did not accept.
--  whose text is decoded in any other pieces, come back, with and without line breaks, where the three
--  characters that the encoder puts in are fit for that.
--  it and with a queue that has room, succeeds; the block fills the size, is written, and held by the
--  transmit queue, under the next number with the first bytes of the payload, and is noted under the
--  opcode that its data call for.
--  the data of the blocks before the first gap to the upstream in the order of their numbers, up to the
--  end of the stream; the queue stands at the gap. The upstream is shut only after the end of the stream
--  was received, and the calls of the sending side and of the steganography modules return, from a
--  state that they keep.
--  nothing left, no connection of a round that offers anything for what is left, or a full queue. The
--  connections take their blocks, the steganography modules keep to the sizes, and the queue allows no
--  overwriting.
--  picked, or else the largest, or none where nobody offers anything.
--  keep to the sizes, `retransmit` returns; no connection offers anything for any block that is out and
--  nothing is done, or a block that is out goes out again with its number, opcode and data and a higher
--  count, or the block that finds a connection was sent 255 times before.
--  queue ends the process.
--  the upstream unless the end of the stream was received before; the upstream is shut down, and an end
--  pending, only when the end was received, and this lasts. The calls of the sending side and of the
--  steganography modules return, from a state that they keep.
--  the process.
--  without dead cycles outlasts any flush interval of its peer.
--  allows is hidden in it, with its length kept, and read back.
--  hidden in it, with its length kept, and read back.
--  hidden in it and read back, or written behind its end where the length field leaves no room.
--  the server reads the data out of it as it was, or ends the process where it is too long, which up to
--  384 bytes of data never make it.
--  its compressed bytes to zlib, without the last of them where it is a carriage return.
--  that of the function, makes the key the most recent one, and gives up only the least recent record,
--  where the cache is full.
--  gives the values of the function that it caches.
--  IDAT chunk of a PNG cover is hidden in it, with its length kept, and read back.
pub mod Common
pub mod Block
pub mod Base64
pub mod Socks
pub mod Chop
pub mod Steg
