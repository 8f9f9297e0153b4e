-- ===== src/Lib.antt =====
-- A model of the vehicle data provider of the platform, the Python package
-- `carla_viss_kuksa_provider` (providers/carla-viss-kuksa/src/carla_viss_kuksa_provider/), and of
-- the programs that compose and check its component artifacts (packaging/fota/), with the
-- theorems that make their parts correct.
--
-- The provider takes vehicle signals from a VISS server over a websocket and publishes them to
-- the KUKSA databroker of the unit. Beside the telemetry it carries two typed advisories: a
-- service asks for one, the provider forwards the request to the vehicle's gateway, and
-- publishes the statuses that the gateway reports.
--
-- The parts, and the files that model them:
--
-- * bridge.py, in Bridge. Bridge/Signal.antt has the values and the converters (`finite_float`,
--   `nonnegative_float`, `uint8_percent`), Bridge/Snapshot.antt the messages
--   (`subscription_request`, `parse_subscribe_response`, `parse_snapshot`), Bridge/State.antt
--   the class `BridgeState`: the record `Bridge` is its state, and `handle_message`, `tick` and
--   `mark_unavailable` are its methods, which return the result or the exception and the next
--   state. The sink is any state with a `publish` that may raise.
-- * readiness.py, in Readiness: `SourceIdentity` with its checks and `ReadinessTracker`, whose
--   state is the record `Tracker`. The bridge's snapshots reach it through `observe`.
-- * advisory.py, in Advisory. Advisory/Endpoint.antt has the table of endpoints and the limits,
--   Advisory/Request.antt and Advisory/Status.antt the validation of the two kinds of message,
--   Advisory/Policy.antt the class `AdvisoryPolicy`, whose state is the record `Policy`; the
--   VISS writer and the status publisher are any states with an operation that may raise.
--
-- * advisory_transport.py, in Transport. Transport/Producer.antt has `producer_ready` and what
--   the observer `CurrentTargets` keeps, Transport/Session.antt the requests in flight and
--   `set_value`, Transport.antt `attach`, `detach` and `tick`, and Transport/Consume.antt
--   `consume`, Transport/Subscription.antt `subscription`. The transport is the VISS writer of
--   its own policy, so that part of its state, `Link`, is the writer's state in the record
--   `Policy`. The monotonic clock, the IDs and the websocket are a parameter, `Environment`.
--   `tick` takes as an argument what the observer's thread has at that time.
--
-- * manifest.py and releases/, in Manifest. Manifest/Releases.antt has the release profiles and
--   the contracts, Manifest.antt `validate_manifest` and `load_manifest`. A profile selects the
--   signals of the bridge; Manifest/Compatible.antt relates them to the bridge's converters and to
--   the status paths of the transport.
--
-- * runtime.py, in Runtime. Runtime.antt has the loop of `run`: what a session does to the
--   bridge and to the readiness tracker on each message, timeout, request and exception.
--   Runtime/Configuration.antt has `load_payload_configuration` and the reconnect delay.
--   Runtime/Sink.antt has `KuksaSink`, the sink of the bridge; the clocks, the file of the token
--   and `kuksa_client` are its parameter `Databroker`. A run takes any sink, with what `close`
--   leaves as a function.
--
-- * packaging/fota/vdp_family.py, in Fota/Prebuild. Fota/Family.antt has the releases,
--   Fota/Paths.antt `PurePosixPath`, Fota/Tar.antt `_ustar` and `_members`, Fota/Prebuild.antt
--   `validate_bytes`, Fota/Prebuild/Compose.antt `compose`, Fota/Prebuild/Output.antt `prepare`
--   and `validate_directory` over the paths on a disk (Fota/Disk.antt).
-- * packaging/fota/vdp_artifact.py, in Fota/Artifact. Fota/Artifact.antt has the names and the
--   canonical form of metadata, Gate.antt below it `verify_entry_gate`, Wheels.antt the
--   wheelhouse and the extraction of its wheels, Records.antt the records of inputs and
--   packages, Metadata.antt `_validate_archive_metadata`, Producer.antt and Document.antt the
--   documents of a candidate, Layer.antt and Candidate.antt `validate`, Family.antt
--   `validate_family` and Stage.antt `stage`. `tarfile`, `gzip`, `hashlib` and `json` are the
--   record `Tools` of Fota/Tar.antt, Git and the environment the record `Surroundings` of
--   Gate.antt, and the files of the repository a function from paths to bytes.
--
-- Python.antt has what these share: JSON as `json.loads` returns it, doubles, datetimes, and the
-- record `Library` of the text routines of Python's library (`json.loads`, `json.dumps`,
-- `float`, `datetime.fromisoformat`), which is a parameter of every function that uses them: the
-- theorems hold for any such routines. Python/Patterns.antt has the regular expressions as
-- recognisers. Prelude has results and exceptions, Boolean tests, lists, association lists for
-- dicts, and text.
--
-- How values are represented. Times of day and readings of the monotonic clock are natural
-- numbers of microseconds, and a call takes the reading as an argument. A difference of times
-- stops at 0, which the comparisons of the source do not tell from a negative one. A datetime
-- has its instant and its offset from UTC. Doubles are their 64 bits. `int` reads any number of
-- digits, of which Python has a limit. A dict is an association list in the order of insertion.
-- Text has no lone surrogates. An exception is a constructor of `Exception`; the ones the source
-- does not tell apart are `other_error`. Loops are structural recursion, but for two with fuel,
-- which give `none` where it is used up. `add_parents` (Fota/Paths.antt), which climbs from a
-- name to its root, is given one round for each part of the name and one more; on an absolute
-- name, where the source does not end, that is not enough. `wait_until` (Runtime/Sink.antt) is
-- given one round for each microsecond of the two seconds that a publication may take: a round
-- that does not end it sleeps for at least one. In packaging/fota a file is its bytes, and the
-- path in the message of an error is kept where the function has it. A directory that a program
-- reads is its plain files and the names of what else stands in it. The directories above a
-- published one are made where they are missing, each listed in its own. A failing read or write
-- of the file system is not modelled: also not that a file stands where a directory is to be
-- made, in which case the source raises.
--
-- Not modelled: the thread of `CurrentTargets` (advisory_transport.py); of runtime.py the VISS
-- and KUKSA configuration and the transport inside the loop; logging, sockets,
-- TLS and gRPC; `build` of vdp_artifact.py with the writing of its payload and archives; the
-- command lines of packaging/fota; the tools and the Yocto layer.
pub mod Prelude
pub mod Python
pub mod Bridge
pub mod Readiness
pub mod Advisory
pub mod Transport
pub mod Manifest
pub mod Runtime
pub mod Fota
