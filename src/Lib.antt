-- ===== src/Lib.antt =====
-- vrtigo: the core of a header-only C++ library that parses, views and edits VITA 49.2 (VRT) packets.
--
-- A packet is a run of 32-bit words in network byte order. The header word says what kind of packet it
-- is, which optional fields follow it, and how many words it has. Data packets end in an optional
-- trailer word; context packets carry up to four CIF words whose bits name the fields that follow.
-- `parse_packet` decodes the header and hands the bytes to the parser of data or of context packets,
-- which validates them once and keeps the places of the fields for its accessors.
--
-- Files and what they model (paths from the repository's root):
--   Common        the C++ casts, shifts and tests on native numbers; bits of words; `Run`, which is
--                 `done` or `fault`, an access outside the bytes that were given
--   Memory        pointers and spans
--   Buffer        include/vrtigo/detail/endian.hpp, buffer_io.hpp: `read_word` and `write_word` are
--                 `read_u32`, `read_u64` and their writing kin at 4 and 8 bytes; Buffer/Regions says
--                 which bytes a write leaves as they were
--   Types         include/vrtigo/types.hpp; an enumeration's values outside its names are `reserved n`
--   ClassId       include/vrtigo/class_id.hpp
--   Header        include/vrtigo/detail/header.hpp, header_decode.hpp, header_init.hpp; Header/Indicators
--                 header_indicators.hpp; Header/View packet_header_accessor.hpp
--   Trailer       include/vrtigo/detail/trailer.hpp; Trailer/View trailer_view.hpp, with a buffer and a
--                 place for the pointer that a view holds; Trailer/State is the abstract trailer
--   RuntimeData   include/vrtigo/detail/runtime_data_packet.hpp: `validate_internal` with its steps as
--                 `validate_header`, `validate_structure` and `place_fields`
--   Cif           include/vrtigo/detail/cif.hpp, variable_field_dispatch.hpp and the two
--                 `compute_size_words` of field_traits.hpp: tables, masks, lengths, offsets;
--                 Cif/Deprecated is the older `calculate_field_offset_runtime` of cif.hpp
--   RuntimeContext  include/vrtigo/detail/runtime_context_packet.hpp, with the early returns of
--                 `validate_internal` as one function per stage; RuntimeContext/Access the accessors and
--                 include/vrtigo/detail/field_access.hpp, field_proxy.hpp
--   Timestamp     include/vrtigo/timestamp.hpp: Timestamp/Picos against numbers of picoseconds,
--                 Timestamp/Chrono the clock
--   Prologue      include/vrtigo/detail/prologue.hpp, timestamp_traits.hpp: the fields before the payload of
--                 a packet whose layout is fixed at compile time; the template arguments are its record
--   DataPacket    include/vrtigo/detail/data_packet.hpp; DataPacket/Builder builder.hpp, one constructor of
--                 `Call` for each setter
--   FieldTraits   include/vrtigo/detail/field_traits.hpp, field_values.hpp, field_tags.hpp: FieldTraits/Cif0 to
--                 Cif3 hold one constant per specialisation; the value type of a trait is its `Shape`, and
--                 `read` and `write` go by the shape; FieldTraits/Encoded is `FieldProxy::encoded`
--   Parser        include/vrtigo/detail/packet_parser.hpp, packet_variant.hpp
--   FileReader    include/vrtigo/utils/fileio/raw_vrt_file_reader.hpp, `read_next` with its checks and its
--                 body as `read_checked` and `read_body`; VrtReader vrt_file_reader.hpp
--   Iteration     include/vrtigo/utils/detail/iteration_helpers.hpp over any reader
--   FileWriter    include/vrtigo/utils/fileio/raw_vrt_file_writer.hpp; VrtWriter vrt_file_writer.hpp and
--                 writer_status.hpp
--
-- State and errors: an object is a record of its members; a call that writes returns the bytes that it
-- leaves. `std::optional` is `Option`, and the offset functions return SIZE_MAX as the code does.
-- Numbers are natural numbers; sums and products of `uint32_t` and `size_t` are cut where they could
-- wrap, and so is the subtraction on `size_t`. The byte order of the host is an argument everywhere.
-- Loops over the bits of a word are recursion on the bits that are left, 32 at most, so no fuel is
-- needed. A buffer of which fewer bytes may be read than its caller says is outside the theorems: they
-- assume that the size given is at most the bytes that there are.
--
-- Files: a FILE is its bytes and the position of the next read. `::write` of the operating system is a
-- parameter of the writer; theorems on whole files assume that it takes all bytes it is given, and the
-- tests have such a system. The loops over a reader run on fuel, one round each, and
-- their answer is `none` when it does not suffice.
--
-- Not modelled: the context packets of compile-time form (include/vrtigo/detail/context_packet.hpp),
-- the conversions of field values to and from `double`, captures and sockets (the rest of
-- include/vrtigo/utils). The names in the CIF tables are documentation and left out.
pub mod Common
pub mod Buffer
pub mod Memory
pub mod Types
pub mod VrtReader
pub mod VrtWriter
pub mod Header
pub mod Iteration
pub mod ClassId
pub mod Trailer
pub mod RuntimeData
pub mod Cif
pub mod RuntimeContext
pub mod Parser
pub mod Prologue
pub mod DataPacket
pub mod FieldTraits
pub mod FileReader
pub mod FileWriter
pub mod Timestamp
