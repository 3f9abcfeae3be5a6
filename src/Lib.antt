-- ===== src/Lib.antt =====
-- photinus: a swarm of monitoring agents ("lanterns") that watch hosts, gossip what they see, decide by
-- quorum and elect one of their number to send each notification.
--
-- The parts and their files:
-- * Quorum models internal/quorum/quorum.go: `Decide` is `decide`. Its map of the newest observations
--   is `newest`, the counting loop `tally`, the verdict `quorum_state`. Quorum/Newest, Quorum/Authority,
--   Quorum/Majority and Quorum/Arrival hold the proofs.
-- * Notify models internal/notify/notify.go: `Elect` is Notify/Elect (`elect`), the events and their
--   sentences are Notify/Event, and `Tracker` with `Observe` is Notify/Tracker (`observe`, whose loop
--   body is `observe_one`). An event that is sent is a result, not an effect.
-- * Lantern models internal/lantern: the memory is the record of Lantern/State; `ReceiveFlash` is
--   Lantern/Receive with its loop in Lantern/Merge; `forget`, `forgetSubject` and `prune` are
--   Lantern/Forget; the clock estimates of skew.go are Lantern/Skew, the membership reports of
--   liveness.go Lantern/Liveness, the pulses of pulse.go Lantern/Pulse, the phone registrations of
--   push.go Lantern/Push, the packets of liveness.go Lantern/Gossip, the dark addresses of blackout.go
--   Lantern/Blackout, the answer to a status client Lantern/Status, and one turn of the loop
--   (`flash`) Lantern/Flash.
-- * Swarm models the ledger of internal/swarm/swarm.go: who was ever seen, which is the denominator
--   of the quorum. The callbacks of memberlist are operations, and Swarm/Runs lets them happen in any
--   order. Swarm/Denominator joins the ledger to the decisions. Swarm/Advertise is the choice of an
--   address in `Join`, Swarm/Rejoin the rejoin loop.
-- * Relay models cmd/relay/server.go: the validation of a request, the hourly limits and the handler,
--   from the decoded request on (`handle_relay`). The requests are those that
--   Notify/RelaySender sends.
-- * Lantern/Words is what a lantern says besides: `SyncState`, `Farewell`, `ForgetSubject` and
--   `pushPayload`, with the JSON encoder as a parameter; Lantern/Words/Heard is what becomes of it at
--   the lantern that hears it.
-- * Notify/Apns models internal/notify/apns.go and Notify/RelaySender internal/notify/relay.go: the
--   pages to phones, up to the wire.
-- * Cmd models cmd/photinus: Cmd/Config `mergeConfig` of config.go, Cmd/Watch `parseWatches` of run.go,
--   Cmd/Start the checks and channels that `runCmd` sets up, Cmd/Status the lines of status.go, and
--   Cmd/Panel the doors of panel.go and of the local socket; Cmd/Run is the order in which `runCmd` starts and ends things, Cmd/Main the choice of the command.
-- * Check models internal/check: Check/Floats `hysteresis`, Check/Size `humanBytes`, Check/Local the `Run`
--   of the checks of the host itself, Check/Remote those of other machines, Check/Pace `Every`, and
--   Check/Linux and Check/Darwin the probes (probe_linux.go, probe_unix.go, probe_darwin.go).
-- * Swarm/Mux models internal/swarm/mux.go as steps of one state, Swarm/Join the configuration in `Join`,
--   what a lantern announces and the way of a payload to its handler.
-- * Notify/Jwt is the provider token of apns.go, Notify/Post the sender of http.go and of exec.go,
--   Relay/Client `clientIP` of cmd/relay/server.go, Version internal/version.
-- * Prelude holds what they share: Go's maps as association lists that hold each key once, sets of
--   names, strings, the clock and durations, signed numbers, sorting.
--
-- How they interact: a flash fills a lantern's memory from its checks, clocks, pulses and members
-- (`Roster` and `Members` of the swarm); the chunks go to the peers, who merge them; `decide` reads
-- the memory and the swarm's last known size; the tracker turns decisions into events; the channels of
-- Cmd/Start pass the events on, and the relays that one of them asks are those of Relay. The watches say
-- which checks run and which subjects are critical; the results that a flash takes are those of
-- Check/Local and Check/Remote, whose readings are those of Check/Linux or Check/Darwin; the panel
-- writes pings and registrations into the memory.
--
-- The model: a `time.Time` is a number of nanoseconds since Go's zero time, a `time.Duration` a signed
-- number of them; products of durations wrap at 64 bits, and `Sub` saturates, as in Go. Counts are
-- not bounded. A map's iteration order is that of the list; where Go sorts, so does the model. The
-- loops are structural recursions on lists; `decimal` runs on fuel, of which a number's own value is
-- enough, since each round divides it by ten. SHA-256, the JSON encoder and decoder, strconv and the
-- other parsers of Go's library, base64 and ECDSA, the formatting of durations and times, DNS and
-- memberlist's answers are parameters or input; so is what a check reports, for `flash`. The loop of
-- `humanBytes` runs on fuel for 64 rounds, as many as a uint64 has bits: each divides the count by 1024.
--
-- Not modelled: the calls of the operating system and of the network themselves (their answers are
-- input), memberlist with its broadcast queue and its transport, the flag sets, the YAML and JSON
-- decoders, the parsing of the key file for Apple, locks (each operation runs under the lock of its
-- object), the start of cmd/relay, and most log lines. Go's float64 is a record of operations without
-- laws. A character that the cut of a text at a byte would split is left out here; Go keeps its bytes.
pub mod Prelude
pub mod Quorum
pub mod Notify
pub mod Swarm
pub mod Lantern
pub mod Relay
pub mod Check
pub mod Cmd
pub mod Version
