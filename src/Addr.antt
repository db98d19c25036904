-- ===== src/Addr.antt =====
-- common/addr_utils.go: addresses with or without a port. A text is the list of its bytes;
-- `net.SplitHostPort`, `strconv.Atoi` and `net.ResolveIPAddr` are parameters, an error is `none`.
pub mod Port
mod Tests
use qperf_go.Prelude.{
  ℕ, Bool, true, false, ◌&&◌, Option, none, some, List, [], ◌∷◌, if◌then◌else◌, ◌==◌, ℤ,
}
use qperf_go.ByteCount.{is_digit}

-- The byte of a colon.
abbrev pub colon : ℕ
colon = 58

unfoldable pub starts_with_digit : List ℕ → Bool
starts_with_digit [] = false
starts_with_digit (c ∷ cs) = is_digit c

-- `regexp.MatchString(".*:\\d+", address)`: the expression matches anywhere in the address, so this is
-- a colon before a digit.
unfoldable pub has_port : List ℕ → Bool
has_port [] = false
has_port (c ∷ cs) =
    let rest = has_port cs in if c == colon && starts_with_digit cs then true else rest

-- The three libraries' functions, for addresses in `Ip`.
pub record Net (Ip : Type 0) : Type 0 where
  pub split_host_port : List ℕ → Option (List ℕ × List ℕ)
  pub atoi : List ℕ → Option ℤ
  pub resolve_ip_addr : List ℕ → Option Ip

module _ {Ip : Type 0} where
  -- A `*net.UDPAddr`.
  unfoldable pub with_ip : Option Ip → ℤ → Option (Ip × ℤ)
  with_ip none port = none
  with_ip (some ip) port = some (ip, port)

  unfoldable pub with_port : Net Ip → List ℕ → Option ℤ → Option (Ip × ℤ)
  with_port net host none = none
  with_port net host (some port) = with_ip (net.resolve_ip_addr host) port

  unfoldable pub with_split : Net Ip → Option (List ℕ × List ℕ) → Option (Ip × ℤ)
  with_split net none = none
  with_split net (some (host, port)) = with_port net host (net.atoi port)

  unfoldable pub parse_resolve_host : Net Ip → List ℕ → ℤ → Option (Ip × ℤ)
  parse_resolve_host net address default_port =
      if has_port address
      then with_split net (net.split_host_port address)
      else with_ip (net.resolve_ip_addr address) default_port
