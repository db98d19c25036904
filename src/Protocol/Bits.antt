-- ===== src/Protocol/Bits.antt =====
-- The two bits of the header and the ECN values.
use qperf_go.Prelude.{ℕ, ◌≤◌, ◌<◌, ◌≡◌, ◌↔◌, ◌⊎◌, none, some, arith}
use qperf_go.Protocol.{parse_ecn_header_bits, to_header_bits, ecn_non, ecn_ce}

-- Parsing and writing the bits are inverse to each other: a byte parses as an ECN value exactly if the
-- value has that byte as its header bits. Parsing panics exactly on bytes above 3, and writing exactly
-- on values outside ECNNon to ECNCE.
pub bits_lem :
    (bits e : ℕ)
    → ((parse_ecn_header_bits bits ≡ some e) ↔ (to_header_bits e ≡ some bits))
      × ((parse_ecn_header_bits bits ≡ none) ↔ (4 ≤ bits))
      × ((to_header_bits e ≡ none) ↔ ((e < ecn_non) ⊎ (ecn_ce < e)))
unfolding parse_ecn_header_bits to_header_bits
bits_lem bits e = (ground arith, ground arith, ground arith)
