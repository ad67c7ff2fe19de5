-- ===== src/Lib.antt =====
-- Verification of the XCB utility libraries.
--
-- The libraries are independent of each other but for their use of the bit operations and of the
-- connection. Each part of the program is a module here, and its children hold what is proved.
--
-- Prelude, Bits, Memory: shared notation, Boolean tests, lists, 32-bit words with their wrap-around, the
--   effects of a C function (`Outcome`: it returns, an `assert` fails, or it is a `fault`: it accesses
--   memory that is not there, or C leaves undefined what an operation does, as for an overflow of
--   `int` in `mul_int` or a shift by too much in `bit_reverse`), the laws of the bitwise operations
--   and of single flags, and copies of memory. They model no code.
-- Bitops: the inline functions of aux/xcb_bitops.h, one definition for each (`xcb_mask` is `mask`);
--   `xcb_bit_reverse` has a second one, `reverse_word`, for its steps on the whole word.
-- Image: image/xcb_image.h and image/xcb_image.c. The header `xcb_image_t` is the record `Image`,
--   and the memory at its `data` a list of bytes.
--   Image/Format: `effective_format`, `format_valid`, `xcb_image_annotate`.
--   Image/Pixel: `xcb_image_put_pixel` and `xcb_image_get_pixel` on every format; Image/Pixel/Z is about
--   z-pixmaps, Image/Pixel/Bitmap about images of one bit per pixel.
--   Image/Create: `xcb_image_create` and what calls it with the formats of the server's setup. The
--   heap is a parameter `Malloc`.
--   Image/Convert: `xcb_image_convert` and `xcb_image_subimage`; the two images share no storage.
--   Image/Requests: the functions that speak to the server, by their requests and by what they make of the
--   reply, and `xcb_image_native`.
--   Image/Fast: the inline functions of image/xcb_pixel.h.
-- Aux: `pack_list` and `xcb_aux_parse_color` of aux/xcb_aux.c.
--   Aux/Values: the requests whose value lists are given as structures, each a list of words.
--   Aux/Screens: the searches through screens, depths and visuals.
-- Request: the requests of libxcb that the libraries make. A function that ends in such a call is
--   modelled by its request, and the function that reads the reply by a function of the reply, or of
--   the null pointer.
-- Event: the handler tables of event/event.c and the dispatch of `xcb_event_handle`. The handlers
--   are functions of a state `S` that they share with the client.
--   Event/Labels: the tables of labels.
-- Property: the list of handlers of property/property.c. What the server holds is a parameter.
--   Property/Events: its registration with the event handlers of event/event.c.
-- Reply: the insertion into the list of handlers of reply/reply.c.
--   Reply/Process: `process_replies` on fuel, one unit a round. What libxcb answers for a request is a
--   parameter. The locks are left out, and nothing else changes the list meanwhile.
-- Icccm: icccm/icccm.c. Its structures in memory are lists of 32-bit words, and of bytes where
--   `memcpy` writes them. The server is the interface `Icccm.Server.Server`, and what libxcb returns
--   as the length of a property's value is a parameter, `value_length`; it is documented to count
--   bytes (`IsByteLength`).
--   Icccm/Text: names of windows, WM_CLASS, WM_TRANSIENT_FOR, WM_PROTOCOLS.
--   Icccm/SizeHints, Icccm/WmHints: the structures of hints with their setters.
-- Keysyms: keysyms/keysyms.c. The connection is a record of the two keycodes of the setup and the
--   reply to the request for the mapping, and the values of the key symbols are a record `Letters`.
--   Keysyms/Case: `xcb_convert_case`. Keysyms/Classes: the tests for classes of symbols.
--   Keysyms/Rules: the rules for lists of key symbols, by the comment in the source, and where the code
--   departs from them. Keysyms/Row, Keysyms/Lookup, Keysyms/Codes: one row, and the two searches.
-- Renderutil: renderutil/util.c, renderutil/glyph.c and renderutil/cache.c.
--   Renderutil/Formats: the searches through the reply to `QueryPictFormats`.
--   Renderutil/Glyphs: the stream of glyphs, on a host that stores the low byte first. Its memory is a
--   list of bytes, `current` an index into it, and `malloc` and `realloc` are parameters.
--   Renderutil/Glyphs/Commands has the server's view of the bytes,
--   Renderutil/Glyphs/Calls a program's calls and what they mean.
--   Renderutil/Cache: the list of connections with the pointer to the node used last; nodes stand at
--   addresses, and a node that is freed is one that is not in the list. `find_display` is split where it
--   takes the lock. Renderutil/Cache/Depths: the test for the depths that Render requires.
--   Renderutil/Cache/Table: the same as a table.
-- Tests: the theorems at concrete inputs, and runs.
--
-- Loops are structural recursion on the number of rounds: the planes, rows and columns left, the
-- 32 shifts after which a mask is 0, the three components of a colour, the columns and keycodes left
-- (a keycode has 8 bits), the words of a row, the 32 depths of pixmaps. The loop over replies is on
-- fuel, and as many rounds as there are replies to come and handlers are enough.
--
-- Not modelled: what sends a request and waits, and the memory shared with the server, which are
-- calls of libxcb; the thread of reply/reply.c and the locks; what only
-- frees memory; the search for atoms by name, whose code is generated; the test programs.
pub mod Prelude
pub mod Bits
pub mod Memory
pub mod Bitops
pub mod Image
pub mod Aux
pub mod Request
pub mod Event
pub mod Reply
pub mod Property
pub mod Icccm
pub mod Keysyms
pub mod Renderutil
pub mod Tests
