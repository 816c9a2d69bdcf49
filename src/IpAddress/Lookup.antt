-- ===== src/IpAddress/Lookup.antt =====
-- src/IPAddress.cpp: looking a host name up. What `getaddrinfo` gives is a parameter: none for an
-- error, or the addresses in the order of the host.
use mavtables.Prelude.{ℕ, Option, none, some, List, [], ◌∷◌, if◌then◌else◌}
use mavtables.Prelude.Exception.{Result, ok, err, runtime_error, ◌>>=◌}
use mavtables.IpAddress.{IpAddress, construct, lt}

-- `insert` of the set, which is kept in the order of the addresses.
unfoldable pub insert : IpAddress → List IpAddress → List IpAddress
insert a [] = a ∷ []
insert a (b ∷ addresses) =
    let rest = insert a addresses in
    if lt a b then a ∷ b ∷ addresses else if lt b a then b ∷ rest else b ∷ addresses

unfoldable pub collect : List ℕ → ℕ → List IpAddress → Result (List IpAddress)
unfolding insert
collect [] port addresses = ok addresses
collect (n ∷ found) port addresses = do
  a ← construct n port
  collect found port (insert a addresses)

-- `DNSLookupError` is a `std::runtime_error`.
abbrev pub smallest : List IpAddress → Result IpAddress
smallest [] = err runtime_error
smallest (a ∷ addresses) = ok a

unfoldable pub unix_dnslookup : Option (List ℕ) → ℕ → Result IpAddress
unfolding collect
unix_dnslookup none port = err runtime_error
unix_dnslookup (some found) port = do addresses ← collect found port []; smallest addresses

unfoldable pub dnslookup : Option (List ℕ) → Result IpAddress
unfolding unix_dnslookup
dnslookup found = unix_dnslookup found 0
