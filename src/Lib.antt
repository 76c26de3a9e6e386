-- ===== src/Lib.antt =====
-- Verification library of the native framework code: the common time service of libs/common_time,
-- the resource configurations, string pools, references, cursor windows and backups of
-- libs/androidfw, and the task queue of the render thread of libs/hwui. BackupHelpers writes to the
-- entity stream of BackupData; the other parts do not call each other.
--
-- Prelude holds what the parts share: Boolean tests on native numbers, lists measured by them,
-- integers, and machine words. A w-bit word is a number, its arithmetic wraps (Prelude/Words).
--
-- CommonTime is libs/common_time.
-- * Packets is common_time_server_packets.h and .cpp: a packet is a Header and a Body, a buffer a
--   list of bytes (Bytes). serialize_packet is serializePacket of the five packet classes,
--   serialize_any the method of TimeServicePacketHeader, deserialize_packet the method of
--   UniversalTimeServicePacket. Packets/Format says what stands on the wire, Packets/RoundTrip
--   parses it again.
-- * Server is CommonTimeServer of common_time_server.h and .cpp, its fields with the names of the
--   members: Transitions has the send and become methods, Timeouts the handleTimeout methods,
--   Handlers the handlers of the packets, Loop setupSocket_l and one pass of runStateMachine_l.
--   A method takes the state and an Env, the values that the local clock, sendto and lrand48 return
--   during the call, and gives an Outcome: the new state and the method's result, a failed
--   assertion, or no valid timeline identifier among the values drawn. The loop of assignTimelineID
--   has no bound, so the theorems that draw one assume that a valid one comes. Datagrams sent are
--   kept in an outbox, the calls to listeners in a list.
-- * The common clock and the clock recovery loop stand behind the interface ClockOps: the basis, the
--   reset and the discipline event, with the laws that the server relies on.
-- * Timeout is Timeout of utils.h and utils.cpp.
-- * RttLog is the ring of the last 30 requests; its search is bounded by the 30 entries.
-- * Server/Invariant, Safety and Run prove the invariant, Election what follows from the arbitration,
--   Silence the two ways to become master when nobody answers, Networkless the loss of the network.
-- Not modelled: the thread and its shutdown, the poll and its failures, the text of the logs, the
-- slewing of the clock between two passes, the configuration services and the diagnostics.
--
-- ResConfig is ResTable_config of include/androidfw/ResourceTypes.h and
-- libs/androidfw/ResourceTypes.cpp: a record of the members, with the unions as words over them.
-- The host is little-endian. Each `if` block of a method is a definition that takes what the
-- blocks behind it return. Specific is isMoreSpecificThan, Better isBetterThan, Match match,
-- Compare compare and compareLogical; Order, Asymmetry, Ties, Accepts, CompareLaws and
-- CompareOrder prove what they decide. The constants of android/configuration.h are the parameter
-- AConfiguration. Packed has the packing of languages and regions. Not modelled: diff, the locale
-- strings, and the `int` overflow in isBetterThan for densities of 2 ^ 15 and more.
--
-- CursorWindow is libs/androidfw/CursorWindow.cpp and include/androidfw/CursorWindow.h: the four
-- words of the header are fields of a record, the rest of the shared memory is a function from
-- offsets to bytes (Memory). clear, set_num_columns, alloc_row, free_last_row, put_blob, put_string,
-- put_long, put_double and put_null are the methods; alloc cuts its sums to 32 bits, as the code
-- does, and takes a size_t of 64 bits. A loop along the chunks is walk_chunks, whose fuel is the row
-- number plus 1; it is enough in every window that has a Layout. Layout gives each byte in use to a
-- chunk, a directory or a value; Fields, Growth, Chunks, Cut, Extend, Directory and Slots prove what
-- the operations' parts do to it, Put, Rows, Stored and Sound what the operations do, Reach puts
-- them in sequence. Not modelled: create, createFromParcel, writeToParcel, the system's shared
-- memory, and accesses outside the window, which the theorems exclude.
--
-- BackupData is BackupDataWriter and BackupDataReader of libs/androidfw/BackupData.cpp and
-- include/androidfw/BackupHelpers.h, on a file of bytes: Writer and Reader have their methods,
-- Format says what stands in the file, ReadParts, ReadBack and RoundTrip read it again, Poison is
-- about a write that fails. The system calls, and what String8 does to memory, are
-- parameters (Posix). Not modelled: the text of the logs.
--
-- BackupHelpers is back_up_files of libs/androidfw/BackupHelpers.cpp and what it calls. Snapshot has
-- read_snapshot_file and write_snapshot_file on a file of bytes, Compare the comparison of the old
-- snapshot with the new one, whose three cases are the operations of a record (Handlers), Update
-- write_delete_file and write_update_file, and Backup the states of the files and the whole. The
-- interface Containers (Keys) stands for KeyedVector and the comparison of String8, with the laws
-- that the comparison of the snapshots relies on; ByteKeys fills it. stat, open and read are a
-- FileSystem, one for the time when the states are taken and one for the time when the files are
-- sent; crc32 is a parameter (Zlib), and write is that of Posix. The size of a file and what is left of
-- it are `int`s. send_zeros has the bytes that are left as its fuel, which is enough since each pass
-- sends at least one. What C leaves undefined is none. Written, ReadBack and RoundTrip read a
-- snapshot again, Promise is about the size of what is sent, Asked says what the states of a file ask
-- for and what the changes do to the stream, Changes, Ascending, Lookup, InOrder and Sending prove
-- that they are sent. Not modelled: write_tarfile, RestoreHelperBase and the tests in the file.
--
-- StringPool is ResStringPool of libs/androidfw/ResourceTypes.cpp and
-- include/androidfw/ResourceTypes.h, on a block of bytes in which every read can miss. Setting is
-- setTo and uninit, Strings stringAt, string8At and styleAt, with the cache of decoded strings; the
-- functions of libutils for UTF-8 are a parameter (Unicode). Reads and Sound are about setTo,
-- Lengths, Places and Inside about where the strings lie, Cached about the cache. Not modelled:
-- indexOfString, the locks, a big-endian host, and memory that runs out.
--
-- References is resolveReference of ResTable, and getAttribute and resolveAttributeReference of its
-- Theme, in libs/androidfw/ResourceTypes.cpp. getResource is an operation of an interface
-- (Resources). The loops recurse on the counts that the code keeps, 20. Ends and Attributes say how
-- they end. Not modelled: the parsing of the tables and applyStyle.
--
-- DynamicRefs is DynamicRefTable of libs/androidfw/ResourceTypes.cpp and
-- include/androidfw/ResourceTypes.h. KeyedVector is a parameter (Entries); the lookup table is a
-- function of the package's identifier, and the loop over its 256 entries counts them. Merge is about
-- addMappings. Not modelled: load.
--
-- RenderThread is libs/hwui/renderthread/RenderThread.cpp, RenderThread.h and RenderTask.h.
-- TaskQueue has the queue's methods on the links of the tasks, a function from a task to the next
-- one; its loops take fuel, and more fuel than there are tasks is enough. Links and Lists relate
-- the links to the list of tasks, Queue, Front and Remove refine the methods to it. Wakeup is
-- RenderThread: a step relation of the calls of other threads and the parts of threadLoop, in which
-- the Looper is a pending wake and the deadline of the sleep. Not modelled: the frame callbacks,
-- vsync and EGL, and the rounding of a sleep to milliseconds.
--
-- The modules named Tests apply each theorem at concrete values.
pub mod Prelude
pub mod BackupData
pub mod BackupHelpers
pub mod StringPool
pub mod References
pub mod DynamicRefs
pub mod CommonTime
pub mod CursorWindow
pub mod RenderThread
pub mod ResConfig
