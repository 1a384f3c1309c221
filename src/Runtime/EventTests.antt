-- ===== src/Runtime/EventTests.antt =====
-- Runs of the event stream of app.py, and instances of its theorems.
use xolis.Base.{◌≡◌, refl, true, some, List, [], ◌∷◌, map}
use xolis.Base.Int.{pos, negsuc}
use xolis.Base.Result.{ok}
use xolis.Text.{codes, is_blank, is_space}
use xolis.Text.Shlex.{split}
use xolis.Text.Decimal.{decimal}
use xolis.Runtime.Capture.{admitted}
use xolis.Text.Utf8.{decode}
use xolis.Runtime.{RuntimeSettings}
use xolis.Runtime.Command.{parse_command}
use xolis.Runtime.Stream.{
  CommandEvent, start, output, exit, stdout, item, reader_done, StreamSpawn, stream_command,
  process_actions,
}
use xolis.Runtime.App.{ExecuteRequest, execute_stream}
use xolis.Runtime.App.Events.{encode_events}
use xolis.Runtime.App.Events.Client.{read_events}
use xolis.Runtime.App.Events.Served.{execute_stream-read}

abbrev settings : RuntimeSettings
settings = record {
  workspace = codes "w" ∷ [];
  maximum_command_timeout_seconds = pos 30;
  maximum_output_bytes = pos 10;
  maximum_upload_bytes = pos 3;
}

abbrev request : ExecuteRequest
request = record { command = codes "cat notes"; timeout_seconds = pos 5 }

-- A line, a quotation mark, a byte that is no UTF-8 and a character of four bytes; then a signal.
abbrev child : StreamSpawn
child = StreamSpawn.started (record {
  pid = 407;
  arrivals =
      item stdout (97 ∷ 10 ∷ 34 ∷ 255 ∷ 0xf0 ∷ 0x9f ∷ 0x98 ∷ 0x80 ∷ [])
      ∷ reader_done
      ∷ reader_done
      ∷ [];
  exits_in_time = true;
  returncode = some (negsuc 8);
})

abbrev served : List CommandEvent
served = start 407 ∷ output stdout (97 ∷ 10 ∷ 34 ∷ 0xfffd ∷ 0x1f600 ∷ []) ∷ exit (negsuc 8) ∷ []

child-served : execute_stream settings request child ≡ ok served
unfolding execute_stream stream_command parse_command process_actions decode is_blank is_space split
    admitted
child-served = refl

body-eq :
    encode_events (start 407 ∷ output stdout (34 ∷ 0x1f600 ∷ []) ∷ [])
    ≡ codes
        "event: start\ndata: {\"pid\":407}\n\nevent: stdout\ndata: {\"data\":\"\\\"\\ud83d\\ude00\"}\n\n"
unfolding encode_events decimal
body-eq = refl

execute_stream-read_example : read_events (encode_events served) ≡ map some served
execute_stream-read_example = execute_stream-read settings request child served tt child-served
