-- ===== src/Turn/Control.antt =====
-- `handle_midturn_control_plane`: the clients that connect while a turn runs, once the accepts and the reads
-- have returned. The source waits for a client's bytes without a timeout and accepts as long as
-- clients wait.
pub mod Words
pub mod Clients
pub mod Cancel
use star_bridge.Base.{
  ℕ, zero, suc, ◌+◌, ◌-◌, Bool, true, false, not, ◌&&◌, ◌||◌, Option, none, some, List, [], ◌∷◌,
  ◌++◌, leb, ◌==◌, if◌then◌else◌, Bytes, length, codes, str_eq, starts_with, is_empty, copy_bounded,
}
use star_bridge.Frame.Build.{decimal}
use star_bridge.Turn.State.{Env, Turn, replied, log, engine_cancel, engine_set_turn_active}

-- `isspace`
unfoldable pub is_blank : ℕ → Bool
is_blank c = c == 32 || leb 9 c && leb c 13

-- The white space that `sscanf` skips.
unfoldable pub skip_space : Bytes → Bytes
skip_space [] = []
skip_space (c ∷ s) = let rest = skip_space s in if is_blank c then rest else c ∷ s

-- A word of at most `width` bytes (`%15s`), and what follows it.
unfoldable pub scan_word : ℕ → Bytes → Bytes × Bytes
scan_word zero s = ([], s)
scan_word (suc width) [] = ([], [])
scan_word (suc width) (c ∷ s) =
    let rest = scan_word width s in if is_blank c then ([], c ∷ s) else (c ∷ rest.0, rest.1)

-- `sscanf(buf, "%15s %511s", method, path)`, if it finds both.
unfoldable pub request_line : Bytes → Option (Bytes × Bytes)
request_line buf =
    let method = scan_word 15 (skip_space buf) in
    let path = scan_word 511 (skip_space method.1) in
    if is_empty method.0 || is_empty path.0 then none else some (method.0, path.0)

-- The answer that is written to a client, and the text of its status.
abbrev pub status_text : ℕ → Bytes
status_text code =
    if code == 200 then codes "OK" else if code == 409 then codes "Conflict" else codes "Not Found"

unfoldable pub http_response : ℕ → Bytes → Bytes
http_response code body = copy_bounded 8192 (
    codes "HTTP/1.1 "
    ++ (decimal 10 code
        ++ (codes " "
            ++ (status_text code
                ++ (codes "\r\nContent-Type: application/json\r\nContent-Length: "
                    ++ (decimal 10 (length body)
                        ++ (codes "\r\nConnection: close\r\n\r\n" ++ body)))))))

-- The body for `GET /v1/models`.
unfoldable pub models_body : Env → Bytes
models_body env =
    let model = if is_empty env.codex_model then codes "star-bridge-ds4" else env.codex_model in
    copy_bounded 4096 (
      codes "{\"object\":\"list\",\"data\":[{\"id\":\""
      ++ (model
          ++ codes
              "\",\"object\":\"model\",\"created\":1700000000,\"owned_by\":\"Star Bridge Local\",\"tools\":[]}]}"))

-- What a client asks for.
pub data Route : Type 0 where
  models cancel conflict not_found : Route

-- The tests on the method and the path.
unfoldable pub route_of : Bytes → Bytes → Route
route_of method path =
    if str_eq method (codes "GET") && str_eq path (codes "/v1/models")
    then models
    else if str_eq method (codes "DELETE") && starts_with path (codes "/v1/responses/")
    then cancel
    else if str_eq method (codes "POST") && str_eq path (codes "/v1/responses")
    then conflict
    else not_found

-- What the handler does for a route.
unfoldable pub serve : Env → Route → Turn → Turn
serve env models t = log (replied (http_response 200 (models_body env))) t
serve env cancel t =
    log (replied (http_response 200 (codes "{\"object\":\"response\",\"status\":\"cancelled\"}")))
      (engine_set_turn_active false (engine_cancel env t))
serve env conflict t =
    log
      (replied (
        http_response 409 (
          codes
            "{\"object\":\"error\",\"type\":\"conflict\",\"code\":\"turn_active\",\"message\":\"A turn is already in progress for this session.\"}")))
      t
serve env not_found t =
    log
      (replied (
        http_response 404
          (codes "{\"object\":\"error\",\"type\":\"not_found\",\"message\":\"Not found\"}")))
      t

-- One client, by what it sends (at most 4095 bytes, cut at the first 0); `none` is a read that fails.
unfoldable pub answer : Env → Option Bytes → Turn → Turn
answer env none t = t
answer env (some text) t = elim (request_line text) [
  | none ↦ t
  | some line ↦ serve env (route_of line.0 line.1) t
]

-- `handle_midturn_control_plane`: the clients that wait, one after the other.
unfoldable pub handle_midturn_control_plane : Env → List (Option Bytes) → Turn → Turn
handle_midturn_control_plane env [] t = t
handle_midturn_control_plane env (client ∷ clients) t =
    handle_midturn_control_plane env clients (answer env client t)

-- The handler behind the test of the descriptor.
abbrev pub control_plane : Env → List (Option Bytes) → Turn → Turn
control_plane env clients t = if env.server then handle_midturn_control_plane env clients t else t
