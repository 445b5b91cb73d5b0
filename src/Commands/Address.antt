-- ===== src/Commands/Address.antt =====
-- src/commands.c: the addresses that PASV, PORT, EPSV and EPRT read and print.
use openps3ftp.Base.{
  ℕ, zero, suc, ◌+◌, ◌*◌, ◌/◌, ◌%◌, Bool, true, ◌&&◌, Option, none, some, [], ◌∷◌, ◌++◌, leb,
  if◌then◌else◌, ◌>>=◌, Bytes, codes, drop, snprintf, str_eq, decimal,
}
use openps3ftp.Session.{Addr, unspec, inet, inet6, is_v4mapped}
use openps3ftp.Scan.{scan_number, to_long, scan_u, scan_char, scan_set}

abbrev pub port_of : Addr → ℕ
port_of unspec = 0
port_of (inet a p) = p
port_of (inet6 a p) = p

-- The address that PASV advertises: `refuse` is the 522, and `unknown` the 425.
pub data Local : Type 0 where
  refuse unknown : Local
  v4 : Bytes → Local

unfoldable pub local_v4 : Addr → Local
unfolding is_v4mapped
local_v4 unspec = unknown
local_v4 (inet a p) = v4 a
local_v4 (inet6 a p) = if is_v4mapped a then v4 (drop 12 a) else refuse

-- INADDR_ANY is advertised as the loopback address.
abbrev pub or_loopback : Bytes → Bytes
or_loopback a = if str_eq a (0 ∷ 0 ∷ 0 ∷ 0 ∷ []) then 127 ∷ 0 ∷ 0 ∷ 1 ∷ [] else a

-- "%u,%u,...", each followed by a comma
commas : Bytes → Bytes
unfolding decimal
commas [] = []
commas (b ∷ bs) = decimal b ++ (b',' ∷ commas bs)

unfoldable pub pasv_text : Bytes → ℕ → Bytes
unfolding commas decimal snprintf
pasv_text ip p = snprintf 128 (
    codes "Entering Passive Mode ("
    ++ (commas ip ++ (decimal (p / 256 % 256) ++ (b',' ∷ (decimal (p % 256) ++ codes ")")))))

-- sscanf(param, "%u,%u,%u,%u,%u,%u", ...) == 6
unfoldable pub scan_tuple : ℕ → Bytes → Option Bytes
unfolding scan_u scan_char
scan_tuple zero s = some []
scan_tuple (suc zero) s = scan_u s >>= λ r. some (r.0 ∷ [])
scan_tuple (suc (suc n)) s =
    scan_u s >>= λ r. scan_char b',' r.1 >>= λ s'. scan_tuple (suc n) s' >>= λ t. some (r.0 ∷ t)

abbrev pub all_bytes : Bytes → Bool
all_bytes [] = true
all_bytes (b ∷ bs) = leb b 255 && all_bytes bs

-- the six numbers as an address
abbrev pub tuple_addr : Bytes → Addr
tuple_addr (a ∷ b ∷ c ∷ d ∷ hi ∷ lo ∷ []) = inet (a ∷ b ∷ c ∷ d ∷ []) (hi * 256 + lo)
tuple_addr _ = unspec

-- The address family that a data connection has to the client: 2 for pure IPv6, else 1.
abbrev pub control_proto : Addr → ℕ
control_proto (inet6 a p) = if is_v4mapped a then 1 else 2
control_proto _ = 1

-- sscanf(param, "|%7[^|]|%127[^|]|%15[^|]|", ...) == 3
unfoldable pub scan_eprt : Bytes → Option (Bytes × Bytes × Bytes)
unfolding scan_char scan_set
scan_eprt s = scan_char b'|' s >>= λ s1. scan_set 7 s1 >>= λ proto. scan_char b'|' proto.1 >>= λ s2.
    scan_set 127 s2 >>= λ addr.
    scan_char b'|' addr.1 >>= λ s3. scan_set 15 s3 >>= λ port. some (proto.0, addr.0, port.0)

-- `strtol(port, NULL, 10)`, modulo 2 ^ 64
unfoldable pub port_number : Bytes → ℕ
unfolding scan_number to_long
port_number s = elim (scan_number 10 s) [ none ↦ 0 | some n ↦ to_long n ]
