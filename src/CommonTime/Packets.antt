-- ===== src/CommonTime/Packets.antt =====
-- libs/common_time/common_time_server_packets.h and common_time_server_packets.cpp: the packets
-- of the time service. A buffer is a list of bytes. Fields are bit patterns.

pub mod Format
pub mod RoundTrip
pub mod Tests
use f2ut_platform_frameworks.Prelude.{
  ℕ, ◌+◌, ◌-◌, ◌*◌, ◌/◌, ◌%◌, ◌^◌, Bool, true, false, ◌&&◌, ◌||◌, Option, none, some, List, [], ◌∷◌,
  ◌++◌, ltb, ◌==◌, if◌then◌else◌, ◌>>=◌, length,
}
use f2ut_platform_frameworks.CommonTime.Bytes.{Writer, be16, be32, be64, put, get16, get32, get64}

-- TimeServicePacketHeader
pub record Header : Type 0 where
  pub magic : ℕ
  pub version : ℕ
  pub packet_type : ℕ
  pub timeline_id : ℕ
  pub sync_group_id : ℕ

-- The members that the derived packet classes add.
pub data Body : Type 0 where
  who_is_master_request : (sender_device_id sender_device_priority : ℕ) → Body
  who_is_master_response : (device_id device_priority : ℕ) → Body
  sync_request : (client_tx_local_time : ℕ) → Body
  sync_response : (client_tx_local_time master_rx_common_time master_tx_common_time nak : ℕ) → Body
  master_announcement : (device_id device_priority : ℕ) → Body

pub record Packet : Type 0 where
  pub header : Header
  pub open header use *
  pub body : Body

-- 'cclk'
abbrev pub k_magic : ℕ
k_magic = 0x63636c6b

abbrev pub k_cur_version : ℕ
k_cur_version = 1

-- ICommonClock::kInvalidTimelineID
abbrev pub k_invalid_timeline_id : ℕ
k_invalid_timeline_id = 0

-- TimeServicePacketType
abbrev pub type_of : Body → ℕ
type_of (who_is_master_request _ _) = 1
type_of (who_is_master_response _ _) = 2
type_of (sync_request _) = 3
type_of (sync_response _ _ _ _) = 4
type_of (master_announcement _ _) = 5

-- initHeader
abbrev pub init_header : ℕ → ℕ → ℕ → Header
init_header type timeline group = record {
  magic = k_magic;
  version = k_cur_version;
  packet_type = type;
  timeline_id = timeline;
  sync_group_id = group;
}

-- checkPacket
pub check_packet : ℕ → Header → Bool
check_packet expected h =
    h.magic == k_magic
    && h.version == k_cur_version
    && (expected == 0 || h.sync_group_id == expected)

-- packDeviceID: the low 56 bits of the identifier, and the priority above them.
unfoldable pub pack_device_id : ℕ → ℕ → ℕ
pack_device_id id prio = id % 2 ^ 56 + prio * 2 ^ 56

unfoldable pub unpack_device_id : ℕ → ℕ
unpack_device_id packed = packed % 2 ^ 56

unfoldable pub unpack_device_priority : ℕ → ℕ
unpack_device_priority packed = packed / 2 ^ 56 % 2 ^ 8

pub serialize_header : ℕ → Header → Writer → Option Writer
serialize_header cap h w = do
  w1 ← put cap 4 (be32 h.magic) w
  w2 ← put cap 2 (be16 h.version) w1
  w3 ← put cap 2 (be16 h.packet_type) w2
  w4 ← put cap 8 (be64 h.timeline_id) w3
  put cap 8 (be64 h.sync_group_id) w4

pub deserialize_header : List ℕ → Option (Header × List ℕ)
deserialize_header bytes = do
  (magic, r1) ← get32 bytes
  (version, r2) ← get16 r1
  (type, r3) ← get16 r2
  (timeline, r4) ← get64 r3
  (group, r5) ← get64 r4
  some (
    record {
      magic = magic;
      version = version;
      packet_type = type;
      timeline_id = timeline;
      sync_group_id = group;
    },
    r5,
  )

pub serialize_device : ℕ → ℕ → ℕ → Writer → Option Writer
serialize_device cap id prio = put cap 8 (be64 (pack_device_id id prio))

-- What the five serializePacket methods write behind the header.
pub serialize_body : ℕ → Body → Writer → Option Writer
unfolding serialize_device
serialize_body cap (who_is_master_request id prio) w = serialize_device cap id prio w
serialize_body cap (who_is_master_response id prio) w = serialize_device cap id prio w
serialize_body cap (sync_request tx) w = put cap 8 (be64 tx) w
serialize_body cap (sync_response tx mrx mtx nak) w = do
  w1 ← put cap 8 (be64 tx) w
  w2 ← put cap 8 (be64 mrx) w1
  w3 ← put cap 8 (be64 mtx) w2
  put cap 4 (be32 nak) w3
serialize_body cap (master_announcement id prio) w = serialize_device cap id prio w

-- serializePacket of a derived class, into a buffer of `cap` bytes from the offset of `w`.
pub serialize_from : ℕ → Packet → Writer → Option Writer
serialize_from cap p w = do
  w1 ← serialize_header cap p.header w
  if ltb 0 w1.0 then serialize_body cap p.body w1 else some w1

pub serialize_packet : ℕ → Packet → Option (List ℕ)
unfolding serialize_from
serialize_packet cap p = do w ← serialize_from cap p (0, []); some w.1

-- TimeServicePacketHeader::serializePacket: the header, and then a second call, of the derived
-- class's method, on the rest of the buffer.
pub serialize_any : ℕ → Packet → Option (List ℕ)
serialize_any cap p = do
  w ← serialize_header cap p.header (0, [])
  rest ← serialize_packet (cap - w.0) p
  some (w.1 ++ rest)

pub deserialize_device : (ℕ → ℕ → Body) → List ℕ → Option Body
deserialize_device make bytes = do
  (packed, _) ← get64 bytes
  some (make (unpack_device_id packed) (unpack_device_priority packed))

-- What the five deserializePacket methods read behind the header, and the default case.
pub deserialize_body : ℕ → List ℕ → Option Body
unfolding deserialize_device
deserialize_body type bytes =
    if type == 1
    then deserialize_device who_is_master_request bytes
    else if type == 2
    then deserialize_device who_is_master_response bytes
    else if type == 3
    then (do (tx, _) ← get64 bytes; some (sync_request tx))
    else if type == 4
    then (do
      (tx, r1) ← get64 bytes
      (mrx, r2) ← get64 r1
      (mtx, r3) ← get64 r2
      (nak, _) ← get32 r3
      some (sync_response tx mrx mtx nak))
    else if type == 5
    then deserialize_device master_announcement bytes
    else none

-- The type field, at bytes 6 and 7; `none` if the packet is shorter than 8 bytes.
pub peek_type : List ℕ → Option ℕ
peek_type bytes = do (_, r1) ← get32 bytes; (_, r2) ← get16 r1; (type, _) ← get16 r2; some type

-- UniversalTimeServicePacket::deserializePacket
pub deserialize_packet : List ℕ → ℕ → Option Packet
unfolding peek_type
deserialize_packet bytes expected = do
  type ← peek_type bytes
  (header, rest) ← deserialize_header bytes
  body ← deserialize_body type rest
  let packet : Packet = record { header = header; body = body }
  if check_packet expected header then some packet else none
