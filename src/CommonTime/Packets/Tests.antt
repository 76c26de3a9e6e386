-- ===== src/CommonTime/Packets/Tests.antt =====
-- The packets of libs/common_time/common_time_server_packets.cpp at concrete inputs.
use f2ut_platform_frameworks.Prelude.{
  List, Option, arith, if◌then◌else◌, none, refl, some, sym, ℕ, ◌++◌, ◌>>=◌, ◌∙◌, ◌≡◌,
}
use f2ut_platform_frameworks.CommonTime.Bytes.{be16, be32, be64, get16, get32, get64}
use f2ut_platform_frameworks.CommonTime.Packets.{
  Packet, check_packet, deserialize_body, deserialize_device, deserialize_header,
  deserialize_packet, k_cur_version, k_magic, master_announcement, pack_device_id, peek_type,
  serialize_packet, unpack_device_id, unpack_device_priority,
}
use f2ut_platform_frameworks.CommonTime.Packets.Format.{body_bytes, header_bytes}
use f2ut_platform_frameworks.CommonTime.Packets.RoundTrip.{HeaderFits, deserialize-serialize}
use f2ut_platform_frameworks.CommonTime.Server.Safety.{NamesTimeline}
use mathlib.Core.Path.{subst}

abbrev announcement_packet : Packet
announcement_packet = record {
  header = record {
    magic = k_magic;
    version = k_cur_version;
    packet_type = 5;
    timeline_id = 7;
    sync_group_id = 1;
  };
  body = master_announcement 8 129;
}

-- An announcement by device 8 of timeline 7 in group 1.
abbrev pub announcement : List ℕ
announcement = header_bytes announcement_packet.header ++ body_bytes announcement_packet.body

announcement-HeaderFits : HeaderFits announcement_packet.header
announcement-HeaderFits = record {
  magic = omega arith;
  version = omega arith;
  type = omega arith;
  timeline = omega arith;
  group = omega arith;
}

parsed : deserialize_packet announcement 1 ≡ some announcement_packet
unfolding deserialize_packet peek_type check_packet deserialize_header deserialize_body
    deserialize_device get16 get32 get64 be16 be32 be64 pack_device_id unpack_device_id
    unpack_device_priority
parsed = refl

abbrev NamesTimelineIfParsed : Option Packet → Type 0
NamesTimelineIfParsed none = Unit {0}
NamesTimelineIfParsed (some p) = NamesTimeline p.body p.timeline_id

pub announcement-NamesTimeline :
    (p : Packet) → deserialize_packet announcement 1 ≡ some p → NamesTimeline p.body p.timeline_id
announcement-NamesTimeline p e =
    let named : NamesTimelineIfParsed (some announcement_packet) = (λ (h : 7 ≡ 0). omega arith) in
    subst NamesTimelineIfParsed (sym parsed ∙ e) named

-- The announcement is written and parsed again.
deserialize-serialize_example :
    (serialize_packet 52 announcement_packet >>= λ bytes. deserialize_packet bytes 1)
    ≡ (if check_packet 1 announcement_packet.header then some announcement_packet else none)
deserialize-serialize_example =
    deserialize-serialize 52 announcement_packet 1 (omega arith) announcement-HeaderFits
      (omega arith, omega arith) refl
