-- ===== src/Tests/HttpTests.antt =====
-- The heads of three requests.
use star_bridge.Base.{
  ◌^◌, ◌≡◌, refl, true, false, [], ◌++◌, Bytes, codes, str_eq, starts_with, contains, some, none,
  ltb, if◌then◌else◌, arith,
}
use star_bridge.Http.{
  find_header_value, header_loop, line_length, index_of, starts_with_case, lower, skip_at_most,
  chunked_body_complete, c_string,
}
use star_bridge.Http.Length.{
  parse_content_length_safe, parse_content_length_safe-number, at_end, skip_blanks, number_from,
}
use star_bridge.Http.Host.{HostConfig, validate_host_header, before}
use star_bridge.Http.Host.LetIn.{LetIn}

abbrev config : HostConfig
config = record { bind_host = []; host_allowlist = codes "box, lan" }

abbrev request : Bytes
request = codes "GET / HTTP/1.1\r\nHost: lan:80\r\n\r\n"

-- A host that only starts with the loopback address is let in.
suffix_let_in :
    validate_host_header config (codes "GET / HTTP/1.1\r\nHost: [::1].evil.com\r\n\r\n") ≡ true
unfolding validate_host_header find_header_value header_loop line_length index_of starts_with_case
    lower skip_at_most starts_with skip_blanks before str_eq
suffix_let_in = refl

parse_content_length_safe-number_example :
    parse_content_length_safe (codes " " ++ (codes "12" ++ ([] ++ codes "\r\n"))) ≡ (
      if ltb (number_from 0 (codes "12")) (2 ^ 63) then some (number_from 0 (codes "12")) else none)
unfolding at_end
parse_content_length_safe-number_example =
    parse_content_length_safe-number (codes " ") (codes "12") [] (codes "\r\n") (refl, tt)
      (refl, (refl, tt)) (omega arith) tt refl

-- A chunked body without any chunk is not taken as complete.
empty_chunked : chunked_body_complete (codes "POST / HTTP/1.1\r\n\r\n0\r\n\r\n") ≡ false
unfolding chunked_body_complete index_of c_string starts_with contains
empty_chunked = refl
