-- ===== src/CommonTime/Packets/Format.antt =====
-- The byte format of libs/common_time/common_time_server_packets.cpp, and the round trip.
use f2ut_platform_frameworks.Prelude.{
  ◌≤◌, ℕ, ◌+◌, ◌-◌, ◌≡◌, refl, ap, ◌∙◌, none, some, List, [], ◌++◌, arith, leb, if◌then◌else◌,
}
use f2ut_platform_frameworks.CommonTime.Bytes.{
  Writer, be16, be32, be64, put, put-put, put-put_positive,
}
use f2ut_platform_frameworks.CommonTime.Packets.{
  Header, Body, who_is_master_request, who_is_master_response, sync_request, sync_response,
  master_announcement, Packet, pack_device_id, serialize_header, serialize_body, serialize_from,
  serialize_packet,
}

-- What stands on the wire, with no buffer in sight.
abbrev pub header_bytes : Header → List ℕ
header_bytes h =
    be32 h.magic
    ++ (be16 h.version ++ (be16 h.packet_type ++ (be64 h.timeline_id ++ be64 h.sync_group_id)))

abbrev pub body_bytes : Body → List ℕ
body_bytes (who_is_master_request id prio) = be64 (pack_device_id id prio)
body_bytes (who_is_master_response id prio) = be64 (pack_device_id id prio)
body_bytes (sync_request tx) = be64 tx
body_bytes (sync_response tx mrx mtx nak) = be64 tx ++ (be64 mrx ++ (be64 mtx ++ be32 nak))
body_bytes (master_announcement id prio) = be64 (pack_device_id id prio)

abbrev pub size_of : Body → ℕ
size_of (sync_response _ _ _ _) = 52
size_of _ = 32

pub size_of-le : (b : Body) → size_of b ≤ 52
size_of-le (sync_response _ _ _ _) = omega arith
size_of-le _ = omega arith

pub serialize_header_lem :
    (max : ℕ) (h : Header) (w : Writer) → serialize_header max h w ≡ put max 24 (header_bytes h) w
unfolding serialize_header
serialize_header_lem max h w = simp put-put

serialize_body_lem :
    (max : ℕ) (b : Body) (w : Writer)
    → serialize_body max b w ≡ put max (size_of b - 24) (body_bytes b) w
unfolding serialize_body
serialize_body_lem max (who_is_master_request id prio) w = refl
serialize_body_lem max (who_is_master_response id prio) w = refl
serialize_body_lem max (sync_request tx) w = refl
serialize_body_lem max (sync_response tx mrx mtx nak) w = simp put-put
serialize_body_lem max (master_announcement id prio) w = refl

size_of_lem : (b : Body) → 24 + (size_of b - 24) ≡ size_of b
size_of_lem (who_is_master_request id prio) = refl
size_of_lem (who_is_master_response id prio) = refl
size_of_lem (sync_request tx) = refl
size_of_lem (sync_response tx mrx mtx nak) = refl
size_of_lem (master_announcement id prio) = refl

-- The offset behind the header is not 0, so the body is always written.
serialize_from_lem :
    (max : ℕ) (p : Packet) (w : Writer)
    → serialize_from max p w
      ≡ put max (size_of p.body) (header_bytes p.header ++ body_bytes p.body) w
unfolding serialize_from
serialize_from_lem max p w =
    simp (serialize_header_lem, serialize_body_lem)
      (put-put_positive max 24 (size_of p.body - 24) _ _ w (omega arith)
        ∙ ap (λ n. put max n (header_bytes p.header ++ body_bytes p.body) w) (size_of_lem p.body))

-- A packet is written exactly when the buffer holds its 32 or 52 bytes, and then it is its format.
pub serialize_packet_lem :
    (max : ℕ) (p : Packet)
    → serialize_packet max p ≡ (
        if leb (size_of p.body) max
        then some (header_bytes p.header ++ body_bytes p.body)
        else none)
unfolding serialize_packet put
serialize_packet_lem max p = ground (arith, serialize_from_lem max p (0, []))
