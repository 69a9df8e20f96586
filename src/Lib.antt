-- ===== src/Lib.antt =====
-- Open3DStream sends motion capture data over a network: subjects, each with a hierarchy of
-- transforms, in packets that a receiver turns into its own axes and units.
--
-- A sender changes the transforms of its subjects and makes packets of them: a full one, or an
-- update with what has moved further than a threshold. A packet is a FlatBuffer behind flags and a
-- checksum. Over UDP it is cut into fragments, and the receiver puts them together. The receiver
-- checks the packet, sets up the conversion from the sender's context to its own, reads the subjects
-- and calculates the world matrices, which the conversion is applied to.
--
-- Base: lists, memory blocks, words and integers over the native numbers, and tests on them.
-- Numerics: floating point and Eigen (src/o3ds/math.h) as a parameter, a record of operations. A
--   float is a double that is the result of a narrowing. The exact facts of IEEE arithmetic that a
--   theorem needs are its hypothesis IsExact. Numerics/Integers is an instance to run the models on.
-- Udp: src/o3ds/udp_fragment.h and udp_fragment.cpp. Udp/Wire is the heading of a fragment,
--   Udp/Fragmenter is UdpFragmenter, Udp/Combiner is UdpCombiner, Udp/Mapper is UdpMapper. A member
--   function that changes its object answers with the new object. A read or write out of bounds, the use
--   of freed memory and a division by zero are faults. Udp/RoundTrip follows one packet from sender to receiver,
--   Udp/Mapper/Interleaved several packets at once; Udp/Mapper/Laws is about getFrame and
--   Udp/Mapper/Flaws about fragments that no fragmenter makes.
-- Context: src/o3ds/context.h and context.cpp. Context/Axes is Context with Direction and
--   DistanceUnit, which also has the values that no enumerator has; Context/Conversion is ConversionContext; Context/Totality, Inverse, Rotation and
--   Same are about conversions between valid contexts; Context/Helpers is the two static helpers.
-- Model: src/o3ds/model.h, model.cpp, transform_component.h, and the schema src/o3ds.fbs.
--   Model/Types and Model/Transform are Transform and its components, with the matrices of math.cpp.
--   Model/Hierarchy is Subject::calcMatrices, which Reference compares
--   with a recursive definition. Model/Wire is the tables of the schema, Model/Subject is
--   serialize and parse of Transform and Subject, Model/Update is serializeUpdate and parseUpdate,
--   Model/Camera is CameraSubject, Model/Bodies is PerformerSubject and RigidbodySubject, Model/Items
--   is the rest of TransformList and Subject, and the checks of SubjectList over its subjects.
--   Model/Packet is finalize and the checks of SubjectList::parse, Model/Codes is dir, distUnit and the
--   context of a packet, Model/Envelope is TimeEnvelope. Model/Assertions is what the
--   code asserts of translations along these. Model/Tracking is about a receiver that
--   follows a sender, Model/RoundTrip about a full packet. Model/SubjectList is SubjectList: its
--   search for a subject, Send for serialize and serializeUpdate with createRoot, Receive for parse.
--   Its children say what a loop does to the list (Lookup, Stages, Turns, Full, Changes), what a
--   packet does to the receiver (Packets, Finished), what many do (Session), what updates cannot
--   change (Shape), and what an id of another class does (Clash).
--
-- Tcp: packets over a TCP connection. Tcp/Frame is a packet with its mark and length, Tcp/Sender is
--   TcpSocket::Send (src/o3ds/tcp.cpp) and WriteTcp (plugins/mobu/device.cpp), Tcp/Server is tick and
--   ReadTcp of O3DSServer (plugins/unreal/.../UOpen3DServer.cpp). What send and Recv of the system
--   answer is a list, an answer to each call; Recv finds something finitely often. The children of Tcp/Server follow one read (Reads), a loop
--   of reads (Fills), a tick of any server (Ends) and a stream of packets (Delivery, Arrival,
--   Connected); Tcp/Transfer joins both sides. Tcp/Receive is
--   the functions Receive and ReceiveToToken of TcpSocket, and Tcp/Whole is about the first.
--
-- LiveLink: plugins/unreal/.../Open3DStreamSource.cpp, which hands the subjects of the packages on to the
--   engine. The engine is a record of what the source uses of it. LiveLink/Names is the names of bones,
--   Live which subjects the engine has been told of, Announced what it is called with.
--
-- Connector: the connectors over nng, src/o3ds/base_connector.h, nng_connector.cpp and those derived
--   from them (pair, pipeline, request, publisher, subscriber and their asynchronous ones). What nng
--   answers to a call is a parameter, and the model counts the messages, sockets and asynchronous
--   operations of nng that a connector holds. Connector/Write is write, Read and Grown are the two reads,
--   Listen the callbacks, Endpoint the members with stop and the destructors, Start and Dialer the
--   functions start. Accounts is about rows of writes, Delivered about the read that makes memory longer,
--   Heard about what the callbacks deliver, Released about what starting and stopping leaves in nng.
--
-- Stream: src/o3ds/binary_stream.h and binary_stream.cpp. Stream is BinaryStream, Stream/Items a row of
--   values with its operators; Stream/RoundTrip, Bounds and Doubles are about them.
--
-- Words have the source's widths, with the wrap-around written out; memory is little endian and
-- size_t has 64 bits. Allocations succeed, but for those of a
-- connector that reads, whose answers are parameters, and the number of a LiveLink frame stays below
-- 2 ^ 31. Loops over lists are structural recursion; the outer loop
-- of calcMatrices runs on the number of iterations that its own limit leaves, a loop of reads on the
-- number of bytes that it waits for, the loop of a tick on the number of calls of Recv that find
-- something, which is shown to be enough, and the other loops on the number of elements still to come,
-- so no fuel can run out. The
-- lengths that TcpSocket::Send is given stay below 2 ^ 31.
--
-- Not modelled: the CRC-32 and FlatBuffers libraries (the checksum is a parameter; a table is a record
-- of what its accessors answer), nng (its answers are parameters), the XSens parser, the rest of the
-- sockets, the rest of the plugins, and the programs.
pub mod Base
pub mod Numerics
pub mod Udp
pub mod Context
pub mod Model
pub mod Tcp
pub mod Stream
pub mod Connector
pub mod LiveLink
