-- ===== src/Addr/Port.antt =====
-- Which port an address gets.
use qperf_go.Prelude.{ℕ, ◌≡◌, refl, true, false, some, List, [], ◌∷◌, ◌++◌, ◌==◌, ◌≤◌, ℤ, arith}
use qperf_go.ByteCount.{is_digit}
use qperf_go.ByteCount.Texts.{All}
use qperf_go.Addr.{
  colon, starts_with_digit, has_port, Net, with_ip, with_port, with_split, parse_resolve_host,
}

-- No byte of the text is a colon.
abbrev pub NoColon : List ℕ → Type 0
NoColon [] = 0 ≤ 0
NoColon (c ∷ cs) = ((c == colon) ≡ false) × NoColon cs

-- A text without colons and square brackets, which `net.SplitHostPort` treats in a special way.
abbrev pub Plain : List ℕ → Type 0
Plain [] = 0 ≤ 0
Plain (c ∷ cs) = ((c == colon) ≡ false) × ((c == 91) ≡ false) × ((c == 93) ≡ false) × Plain cs

-- `net.SplitHostPort` splits a text with one colon, and no brackets, there.
abbrev pub Splits : {Ip : Type 0} → Net Ip → Type 0
Splits net =
    (host port : List ℕ)
    → Plain host
    → Plain port
    → net.split_host_port (host ++ (colon ∷ port)) ≡ some (host, port)

no_port : (host : List ℕ) → NoColon host → has_port host ≡ false
unfolding has_port
no_port [] h = refl
no_port (c ∷ cs) h = rw (h.0, no_port cs h.1) refl

port_after :
    (host : List ℕ) (d : ℕ) (ds : List ℕ)
    → NoColon host
    → is_digit d ≡ true
    → has_port (host ++ (colon ∷ d ∷ ds)) ≡ true
unfolding has_port starts_with_digit
port_after [] d ds h e = rw e refl
port_after (c ∷ cs) d ds h e = rw (h.0, port_after cs d ds h.1 e) refl

digits-Plain : (ds : List ℕ) → All is_digit ds → Plain ds
unfolding is_digit
digits-Plain [] h = h
digits-Plain (d ∷ ds) h =
    (ground (arith, h.0), ground (arith, h.0), ground (arith, h.0), digits-Plain ds h.1)

Plain-NoColon : (cs : List ℕ) → Plain cs → NoColon cs
Plain-NoColon [] h = h
Plain-NoColon (c ∷ cs) h = (h.0, Plain-NoColon cs h.3)

module _ {Ip : Type 0} where
  -- For a `net.SplitHostPort` that splits a text with one colon and no square brackets there, and a
  -- host without colons and square brackets: the host alone resolves with the default port; and with a colon and digits behind it, it resolves with
  -- the number that Atoi reads, or fails where Atoi does.
  pub port_lem :
      (net : Net Ip) (host : List ℕ) (d : ℕ) (ds : List ℕ) (default_port : ℤ)
      → Splits net
      → Plain host
      → All is_digit (d ∷ ds)
      → (parse_resolve_host net host default_port ≡ with_ip (net.resolve_ip_addr host) default_port)
        × (parse_resolve_host net (host ++ (colon ∷ d ∷ ds)) default_port
            ≡ with_port net host (net.atoi (d ∷ ds)))
  unfolding parse_resolve_host with_split
  port_lem net host d ds default_port splits h a = (
    rw (no_port host (Plain-NoColon host h)) refl,
    rw
        (
          port_after host d ds (Plain-NoColon host h) a.0,
          splits host (d ∷ ds) h (digits-Plain (d ∷ ds) a),
        )
        refl,
  )
