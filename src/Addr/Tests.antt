-- ===== src/Addr/Tests.antt =====
-- "h:80" and "h" with the default port.
use qperf_go.Prelude.{
  ℕ, ◌≡◌, refl, true, Option, none, some, List, [], ◌∷◌, ◌++◌, if◌then◌else◌, ◌==◌, ℤ, pos, arith,
}
use qperf_go.ByteCount.{is_digit, parse_uint}
use qperf_go.Addr.{colon, starts_with_digit, has_port, Net, with_ip, with_port, parse_resolve_host}
use qperf_go.Addr.Port.{Splits, port_lem}

-- Splitting at the first colon.
unfoldable before_colon : ℕ → Option (List ℕ × List ℕ) → Option (List ℕ × List ℕ)
before_colon c none = none
before_colon c (some (host, port)) = some (c ∷ host, port)

unfoldable split : List ℕ → Option (List ℕ × List ℕ)
split [] = none
split (c ∷ cs) = let rest = split cs in if c == colon then some ([], cs) else before_colon c rest

unfoldable as_integer : Option ℕ → Option ℤ
as_integer none = none
as_integer (some n) = some (pos n)

abbrev net : Net ℕ
net = record {
  split_host_port = split;
  atoi = λ s. as_integer (parse_uint s);
  resolve_ip_addr = λ host. some 2_130_706_433;
}

net-Splits : Splits net
unfolding split before_colon
net-Splits [] port h p = refl
net-Splits (c ∷ cs) port h p = rw (h.0, net-Splits cs port h.3 p) refl

port_lem_example :
    (parse_resolve_host net (104 ∷ []) (pos 18_080)
      ≡ with_ip (net.resolve_ip_addr (104 ∷ [])) (pos 18_080))
    × (parse_resolve_host net ((104 ∷ []) ++ (colon ∷ 56 ∷ 48 ∷ [])) (pos 18_080)
        ≡ with_port net (104 ∷ []) (net.atoi (56 ∷ 48 ∷ [])))
unfolding is_digit
port_lem_example =
    port_lem net (104 ∷ []) 56 (48 ∷ []) (pos 18_080) net-Splits (refl, refl, refl, omega arith)
      (refl, (refl, omega arith))

-- "::1" is taken to have a port.
local_host_has_port : has_port (colon ∷ colon ∷ 49 ∷ []) ≡ true
unfolding has_port starts_with_digit is_digit
local_host_has_port = refl
