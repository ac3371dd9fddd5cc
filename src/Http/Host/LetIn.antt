-- ===== src/Http/Host/LetIn.antt =====
-- Which requests the server lets in.
use star_bridge.Base.{◌≡◌, true, false, some, Bytes, codes, starts_with, is_empty}
use star_bridge.Http.{find_header_value}
use star_bridge.Http.Host.{HostConfig}
use star_bridge.Http.Host.Spelling.{HostOf}
use star_bridge.Http.Host.Entries.{one_of, allowed_hosts}

-- A request that the server lets in: one for the options, or one with the header "Host" whose host is
-- "[::1]" or an allowed one.
pub data LetIn (config : HostConfig) (raw : Bytes) : Type 0 where
  options : starts_with raw (codes "OPTIONS ") ≡ true → LetIn config raw
  loopback :
      {value : Bytes}
      → find_header_value raw (codes "Host") ≡ some value
      → HostOf value (codes "[::1]")
      → LetIn config raw
  listed :
      {value host : Bytes}
      → find_header_value raw (codes "Host") ≡ some value
      → HostOf value host
      → is_empty host ≡ false
      → one_of host (allowed_hosts config) ≡ true
      → LetIn config raw
