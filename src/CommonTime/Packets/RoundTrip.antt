-- ===== src/CommonTime/Packets/RoundTrip.antt =====
-- Parsing what libs/common_time/common_time_server_packets.cpp has written.
use f2ut_platform_frameworks.Prelude.{
  ◌-◌, refl, ℕ, ◌<◌, ◌≤◌, ◌^◌, ◌≡◌, none, some, List, ◌++◌, arith, if◌then◌else◌, ◌>>=◌,
}
use f2ut_platform_frameworks.CommonTime.Bytes.{
  put, be64, be32, get32, get16-be16, get32-be32, get64-be64,
}
use f2ut_platform_frameworks.CommonTime.Packets.{
  serialize_any, peek_type, deserialize_device, [], Header, Body, who_is_master_request,
  who_is_master_response, sync_request, sync_response, master_announcement, Packet, type_of,
  check_packet, pack_device_id, unpack_device_id, unpack_device_priority, serialize_packet,
  deserialize_header, deserialize_body, deserialize_packet,
}
use f2ut_platform_frameworks.CommonTime.Packets.Format.{
  serialize_header_lem, size_of-le, header_bytes, body_bytes, serialize_packet_lem,
}
use mathlib.Core.List.{append_assoc, append-nil}

-- Each member is in the range of its C type; a device identifier has at most 56 bits.
abbrev pub Fits : Body → Type 0
Fits (who_is_master_request id prio) = (id < 2 ^ 56) × (prio < 2 ^ 8)
Fits (who_is_master_response id prio) = (id < 2 ^ 56) × (prio < 2 ^ 8)
Fits (sync_request tx) = tx < 2 ^ 64
Fits (sync_response tx mrx mtx nak) =
    (tx < 2 ^ 64) × (mrx < 2 ^ 64) × (mtx < 2 ^ 64) × (nak < 2 ^ 32)
Fits (master_announcement id prio) = (id < 2 ^ 56) × (prio < 2 ^ 8)

pub record HeaderFits (h : Header) : Type 0 where
  pub magic : h.magic < 2 ^ 32
  pub version : h.version < 2 ^ 16
  pub type : h.packet_type < 2 ^ 16
  pub timeline : h.timeline_id < 2 ^ 64
  pub group : h.sync_group_id < 2 ^ 64

deserialize_header_lem :
    (h : Header) (rest : List ℕ)
    → HeaderFits h
    → deserialize_header (header_bytes h ++ rest) ≡ some (h, rest)
unfolding deserialize_header
deserialize_header_lem h rest f = simp (
  append_assoc,
  get32-be32 _ _ f.magic,
  get16-be16 _ _ f.version,
  get16-be16 _ _ f.type,
  get64-be64 _ _ f.timeline,
  get64-be64 _ _ f.group,
)

unpack-pack :
    (id prio : ℕ)
    → id < 2 ^ 56
    → prio < 2 ^ 8
    → (unpack_device_id (pack_device_id id prio) ≡ id)
      × (unpack_device_priority (pack_device_id id prio) ≡ prio)
      × (pack_device_id id prio < 2 ^ 64)
unfolding unpack_device_id pack_device_id unpack_device_priority
unpack-pack id prio h k = omega arith

device_lem :
    (make : ℕ → ℕ → Body) (id prio : ℕ)
    → id < 2 ^ 56
    → prio < 2 ^ 8
    → deserialize_device make (be64 (pack_device_id id prio)) ≡ some (make id prio)
unfolding deserialize_device
device_lem make id prio h k =
    let (e, e', fits) = unpack-pack id prio h k in
    ground
      (arith, get64-be64 (pack_device_id id prio) [], append-nil (be64 (pack_device_id id prio)))

get32-be32_end : (v : ℕ) → v < 2 ^ 32 → get32 (be32 v) ≡ some (v, [])
get32-be32_end v h = rw (append-nil (be32 v)) at (get32-be32 v [] h)

deserialize_body_lem : (b : Body) → Fits b → deserialize_body (type_of b) (body_bytes b) ≡ some b
unfolding deserialize_body
deserialize_body_lem (who_is_master_request id prio) f =
    device_lem who_is_master_request id prio f.0 f.1
deserialize_body_lem (who_is_master_response id prio) f =
    device_lem who_is_master_response id prio f.0 f.1
deserialize_body_lem (sync_request tx) f = ground (arith, get64-be64 tx [], append-nil (be64 tx))
deserialize_body_lem (sync_response tx mrx mtx nak) f =
    simp (get64-be64 _ _ f.0, get64-be64 _ _ f.1, get64-be64 _ _ f.2, get32-be32_end nak f.3)
deserialize_body_lem (master_announcement id prio) f =
    device_lem master_announcement id prio f.0 f.1

peek_type_lem :
    (h : Header) (rest : List ℕ)
    → HeaderFits h
    → peek_type (header_bytes h ++ rest) ≡ some h.packet_type
unfolding peek_type
peek_type_lem h rest f =
    simp (append_assoc, get32-be32 _ _ f.magic, get16-be16 _ _ f.version, get16-be16 _ _ f.type)

deserialize_format :
    (p : Packet) (group : ℕ)
    → HeaderFits p.header
    → Fits p.body
    → p.packet_type ≡ type_of p.body
    → deserialize_packet (header_bytes p.header ++ body_bytes p.body) group
      ≡ (if check_packet group p.header then some p else none)
unfolding deserialize_packet
deserialize_format p group h b t =
    rw
      (
        peek_type_lem p.header (body_bytes p.body) h,
        deserialize_header_lem p.header (body_bytes p.body) h,
        t,
        deserialize_body_lem p.body b,
      )
      refl

-- A packet whose members are in range, with the type of its class, is written to any buffer of
-- 52 bytes, and parsing what was written gives the packet back if its magic number, version and
-- group pass the check, and fails otherwise.
pub deserialize-serialize :
    (max : ℕ) (p : Packet) (group : ℕ)
    → 52 ≤ max
    → HeaderFits p.header
    → Fits p.body
    → p.packet_type ≡ type_of p.body
    → (serialize_packet max p >>= λ bytes. deserialize_packet bytes group)
      ≡ (if check_packet group p.header then some p else none)
deserialize-serialize max p group m h b t =
    ground (arith, serialize_packet_lem max p, size_of-le p.body, deserialize_format p group h b t)

-- The base class's method writes the header twice, whatever the packet: what it puts on the wire
-- for a buffer of 76 bytes is the header, and then the whole packet, header included.
pub serialize_any-header_twice :
    (max : ℕ) (p : Packet)
    → 76 ≤ max
    → serialize_any max p
      ≡ some (header_bytes p.header ++ (header_bytes p.header ++ body_bytes p.body))
unfolding serialize_any put
serialize_any-header_twice max p h = ground (
  arith,
  serialize_header_lem max p.header (0, []),
  serialize_packet_lem (max - 24) p,
  size_of-le p.body,
)
