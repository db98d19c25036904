-- ===== src/Protocol.antt =====
-- internal/protocol/protocol.go: ECN code points and the names of packet types.
-- `PacketType` and `ECN` are `uint8`, so values below 256, of which the constants name some; a panic is
-- `none`.
pub mod Bits
mod Tests
use qperf_go.Prelude.{
  ℕ, ◌+◌, ◌^◌, ◌-◌, ◌*◌, Option, none, some, if◌then◌else◌, ◌==◌, ℤ, pos, negsuc,
}

abbrev pub packet_type_initial : ℕ
packet_type_initial = 1

abbrev pub packet_type_retry : ℕ
packet_type_retry = 2

abbrev pub packet_type_handshake : ℕ
packet_type_handshake = 3

abbrev pub packet_type_0rtt : ℕ
packet_type_0rtt = 4

-- What `String` writes for a packet type, the unknown ones with their number.
pub data PacketTypeName : Type 0 where
  initial : PacketTypeName
  retry : PacketTypeName
  handshake : PacketTypeName
  zero_rtt_protected : PacketTypeName
  unknown_packet_type : ℕ → PacketTypeName

unfoldable pub packet_type_string : ℕ → PacketTypeName
packet_type_string t =
    if t == packet_type_initial
    then initial
    else if t == packet_type_retry
    then retry
    else if t == packet_type_handshake
    then handshake
    else if t == packet_type_0rtt
    then zero_rtt_protected
    else unknown_packet_type t

abbrev pub ecn_unsupported : ℕ
ecn_unsupported = 0

abbrev pub ecn_non : ℕ
ecn_non = 1

abbrev pub ect1 : ℕ
ect1 = 2

abbrev pub ect0 : ℕ
ect0 = 3

abbrev pub ecn_ce : ℕ
ecn_ce = 4

unfoldable pub parse_ecn_header_bits : ℕ → Option ℕ
parse_ecn_header_bits bits =
    if bits == 0
    then some ecn_non
    else if bits == 2
    then some ect0
    else if bits == 1
    then some ect1
    else if bits == 3
    then some ecn_ce
    else none

unfoldable pub to_header_bits : ℕ → Option ℕ
to_header_bits e =
    if e == ecn_non
    then some 0
    else if e == ect0
    then some 2
    else if e == ect1
    then some 1
    else if e == ecn_ce
    then some 3
    else none

pub data EcnName : Type 0 where
  unsupported : EcnName
  not_ect : EcnName
  ect_1 : EcnName
  ect_0 : EcnName
  ce : EcnName
  invalid_ecn : ℕ → EcnName

unfoldable pub ecn_string : ℕ → EcnName
ecn_string e =
    if e == ecn_unsupported
    then unsupported
    else if e == ecn_non
    then not_ect
    else if e == ect1
    then ect_1
    else if e == ect0
    then ect_0
    else if e == ecn_ce
    then ce
    else invalid_ecn e
