-- ===== src/Lib.antt =====
-- Xolis: the Python runtime that runs inside a sandbox, and the Python tools around it.
--
-- The runtime (services/xolis-runtime-python/src/xolis_runtime) parses a command, runs it with bounded
-- output and a timeout, streams its events, keeps an interactive session on a pseudo-terminal, and
-- stores, lists and serves files below one workspace directory; app.py answers HTTP requests with
-- these operations. The tools drive a cluster from outside: tools/hermes_demo.py prepares a warm pool,
-- starts a session through the API and cleans up; tools/xolis_aws_lab.py scales sandbox nodes, runs
-- test workflows and reports their phases; tools/xolis_image_builder.py builds container images on an
-- instance that it launches and terminates; tools/xolis_aws_cost.py reports what is stored on AWS and
-- what that costs; tools/render_hermes_profile.py fills in the profile of the demo;
-- image/aws/pvm/scripts/validate-kernel-config.py checks a kernel configuration. The commands that
-- hermes_demo.py sends are made by shlex.join and taken apart by the runtime's parse_command.
--
-- Files:
-- - Base: names of the library, Boolean tests, lists and integers over the native numbers, results.
-- - Text: text as code points; Text.Shlex, Text.Utf8 and Text.Decimal are the parts of Python's
--   standard library that the program relies on (shlex.split, shlex.quote and shlex.join; bytes.decode
--   with errors="replace"; the digits of an integer), Text.Json is json.dumps of a string.
-- - Runtime.Command, .Capture, .Execute, .Stream, .Paths, .Upload, .Listing: parse_command,
--   _read_limited, execute_command, stream_command, resolve_workspace_path, write_upload and
--   list_directory of core.py. Runtime.Process is the child process as they meet it.
-- - Runtime.Interactive: the start message and the two tasks of interactive.py; Runtime.Interactive.Life
--   is the session around them. Runtime.App: the routes of app.py; Runtime.App.Events:
--   the text of an event stream, with a client that reads it.
-- - Hermes.Frame: encode_frame, read_exact and read_frame of tools/hermes_demo.py. Hermes.Demo: its
--   main, with configure_api, verify_prepared_environment and restore_api. Hermes.Upgrade and
--   Hermes.Session: websocket_connect and interactive_session, whose loop is given by what each round
--   finds; it is put against the runtime's session of Runtime.Interactive.
-- - Hermes.Waiting: wait_for_warm_pool, PortForward.__enter__ and wait_running with the status check of
--   ApiClient.request, given by what their rounds find.
-- - Hermes.Profile: render of tools/render_hermes_profile.py, over Text.Replace for str.replace.
-- - Lab: the configuration, the command runner and the phases of tools/xolis_aws_lab.py;
--   Lab.Nodes, Lab.Waiting and Lab.Workflow are its node filters, its polling loops and its workflows;
--   Lab.Summary is summarize_samples with what write_benchmark_summary reports of a mode.
-- - Builder: build_commands and shell_quote of tools/xolis_image_builder.py. Builder.Run: the run of
--   ImageBuilder with upload_source, wait_for_command and cleanup.
-- - KernelConfig: image/aws/pvm/scripts/validate-kernel-config.py.
-- - Cost: the AWS command line of tools/xolis_aws_cost.py; Cost.Login, .Snapshots, .Storage, .Active,
--   .Prices and .Report are authenticate, collect_snapshots with snapshot_allocated_bytes, collect_ecr
--   and collect_s3, collect_active_resources, price_per_unit with get_storage_prices, and build_report
--   with main.
-- The modules named Tests, SessionTests, EventTests, ProfileTests, WaitingTests
-- and SummaryTests hold runs at concrete inputs.
--
-- How state is modelled. A child process, a terminal, a connection and a cluster lie outside the
-- program: what they yield is an argument (the chunks that a pipe yields, the order in which readers,
-- clock and consumer act, the reply to each command), and the theorems hold for every such argument.
-- A file system is a function from paths, for its links, its contents or its directories. The lab
-- and the demo pass their state through each step, and a step that raises ends in a state too. Which
-- calls fail is part of what is given, also where a call takes effect and its answer is lost: an
-- upload whose directory, temporary file, writes, closing, replacement or removal fails, a session
-- whose connection fails or that is cancelled, a sandbox or an instance that is created although the
-- call raised, a port-forward that does not stop.
--
-- Fuel. Path resolution follows symbolic links on fuel and has an outcome of its own for fuel that
-- ran out; without links one unit for each part is enough. The polling loops of the lab take fuel for
-- their rounds, and end by themselves once the clock is past the deadline. All other loops are
-- structural.
--
-- Floats are a parameter of the cost report and of the benchmark summary, with the two laws that
-- comparison has at every float, NaN among them. The pages of a snapshot are read on fuel, one unit for each page.
--
-- Not modelled: the Rust control plane, infrastructure and shell scripts; argument parsers, logs and
-- printed messages; JSON (but for the event stream) and base64 as text, so that the answers of the
-- AWS command line, those on prices and costs among them, are given as the values that they hold; the
-- other members of the process group that a command or a session starts; FastAPI, asyncio and the
-- AWS command line themselves.
pub mod Base
pub mod Text
pub mod Runtime
pub mod Hermes
pub mod Lab
pub mod Builder
pub mod KernelConfig
pub mod Cost
