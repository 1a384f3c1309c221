-- ===== src/Hermes/Upgrade.antt =====
-- `websocket_connect` of tools/hermes_demo.py: the request and the check of the server's answer.
pub mod Answered
use xolis.Base.{
  ℕ, zero, suc, ◌+◌, Bool, true, false, ◌&&◌, ◌||◌, List, [], ◌∷◌, ◌++◌, map, leb, ◌==◌, nat_eq,
  if◌then◌else◌,
}
use xolis.Base.Result.{Result, ok, err, ◌>>=◌, map_err}
use xolis.Text.{Text, codes, starts_with}
use xolis.Text.Decimal.{decimal}
use xolis.Hermes.Frame.{Bytes, Connection, FrameError, Received, read_exact}

pub data UpgradeError : Type 0 where
  frame_error : FrameError → UpgradeError
  too_large refused : UpgradeError

-- `pattern in s`
abbrev pub has_text : Text → Text → Bool
has_text pattern [] = starts_with pattern []
has_text pattern (c ∷ s) = starts_with pattern (c ∷ s) || has_text pattern s

abbrev pub crlf : Text
crlf = 13 ∷ 10 ∷ []

unfoldable pub has_end : Bytes → Bool
has_end response = has_text (crlf ++ crlf) response

-- `str.lower` on one character of a text that was decoded from ISO 8859-1
unfoldable pub lower : ℕ → ℕ
lower c =
    if (leb 65 c && leb c 90) || ((leb 0xc0 c && leb c 0xde) && (if c == 0xd7 then false else true))
    then c + 32
    else c

abbrev pub line : Text → Text → Text
line s rest = s ++ (crlf ++ rest)

unfoldable pub upgrade_request : ℕ → Text → Text → Text → Text
unfolding decimal
upgrade_request port tenant sandbox_id key =
    line (codes "GET /v1/sandboxes/" ++ (sandbox_id ++ codes "/sessions HTTP/1.1")) (
      line (codes "Host: 127.0.0.1:" ++ decimal port) (
        line (codes "Upgrade: websocket") (
          line (codes "Connection: Upgrade") (
            line (codes "Sec-WebSocket-Key: " ++ key) (
              line (codes "Sec-WebSocket-Version: 13")
                (line (codes "x-xolis-tenant: " ++ tenant) (line [] [])))))))

-- The loop that reads the answer byte by byte; `room` is how many more bytes it may have.
unfoldable pub read_answer : ℕ → Bytes → Connection → Result UpgradeError Received
unfolding has_end read_exact
read_answer zero response connection =
    if has_end response
    then ok (record { bytes = response; rest = connection })
    else map_err frame_error (read_exact connection 1) >>= (λ r. err too_large)
read_answer (suc room) response connection =
    let more =
      map_err frame_error (read_exact connection 1)
      >>= (λ r. read_answer room (response ++ r.bytes) r.rest) in
    if has_end response then ok (record { bytes = response; rest = connection }) else more

-- The status line, and the key's digest in a header line, whatever the letters' case.
unfoldable pub is_accepted : Text → Text → Bool
unfolding lower
is_accepted expected_accept header =
    starts_with (codes "HTTP/1.1 101 ") header
    && has_text (map lower (codes "Sec-WebSocket-Accept: " ++ expected_accept)) (map lower header)

abbrev pub check_answer : Text → Received → Result UpgradeError Connection
check_answer expected_accept r =
    if is_accepted expected_accept r.bytes then ok r.rest else err refused

-- The connection after the upgrade; `expected_accept` is the digest of the key that was sent.
unfoldable pub websocket_connect : Text → Connection → Result UpgradeError Connection
unfolding read_answer is_accepted
websocket_connect expected_accept connection =
    read_answer 16384 [] connection >>= check_answer expected_accept
