-- ===== src/Protocol/Tests.antt =====
-- The bits 10.
use qperf_go.Prelude.{◌≤◌, ◌<◌, ◌≡◌, ◌↔◌, ◌⊎◌, none, some}
use qperf_go.Protocol.{parse_ecn_header_bits, to_header_bits, ect0, ecn_non, ecn_ce}
use qperf_go.Protocol.Bits.{bits_lem}

bits_lem_example :
    ((parse_ecn_header_bits 2 ≡ some ect0) ↔ (to_header_bits ect0 ≡ some 2))
    × ((parse_ecn_header_bits 2 ≡ none) ↔ (4 ≤ 2))
    × ((to_header_bits ect0 ≡ none) ↔ ((ect0 < ecn_non) ⊎ (ecn_ce < ect0)))
bits_lem_example = bits_lem 2 ect0
