-- ===== src/Netip.antt =====
-- The part of Go's package net/netip that the program uses: addresses and prefixes as values. An
-- address is the number that its bytes spell; an IPv6 address has a zone, empty where none is given.
mod Text
unfoldable pub use Text.{decimal, hexadecimal, addr_string, prefix_string}
pub mod Values
unfoldable pub use Values.*
