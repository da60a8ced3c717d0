-- ===== src/Lib.antt =====
-- A model of taskcluster-multistage-docker-worker, a Taskcluster worker that runs each task as a
-- chain of containers. The worker's main loop (internal/worker/worker.go) claims tasks and runs
-- each of them in a goroutine that holds a slot. The run of a task (internal/worker/run.go)
-- allocates a live log (internal/pubsubbuffer), runs the steps of the payload
-- (internal/config/payload.go) in a sandbox of a container runtime (internal/cri/cri.go), uploads
-- the artifacts (internal/worker/artifact.go), and reports the outcome to the queue, where the kind
-- of an error (internal/exception/exception.go) decides what is reported. The runtime is Docker
-- (internal/cri/docker.go), and a sandbox is Docker in a container of it (internal/cri/dind.go). The
-- command (cmd/multistage-docker-worker) reads the configuration (internal/config/config.go), sets
-- up the logs (internal/log), the live logs (internal/livelog) and the protocol with the process that
-- runs the worker (internal/workerproto), and runs the worker.
--
-- Common: tests, lists measured by native numbers, maps, channels, paths and decimals; Common.Lines:
-- the lines that Go's `bufio.Reader.ReadLine` makes of a stream, with its buffer of 4096 bytes.
--
-- PubSub: internal/pubsubbuffer.
--   PubSub.Buffer: pubsubbuffer.go, one function for each method; `read` is one turn of the loop in
--     `reader.Read`. The goroutines parked in `cond.Wait` are a list in the buffer, which every
--     `Broadcast` empties.
--   PubSub.Session: any number of readers of one buffer and its writers, interleaved. A schedule is
--     a list of the actions that goroutines take under the lock: `writes`, `closes`, `cancels` (a
--     context ends), `notifies` (the goroutine of `Subscribe` sees it), `reads`.
--     Session.Invariant, Session.Delivery and Session.Liveness hold the proofs.
--   PubSub.Contents: a subscription that is read to its end, with its proofs.
--   PubSub.Http: `Buffer.ServeHTTP`, a reader with a destination of 4096 bytes, with others acting
--     between its turns. Http.Body and Http.Finish hold the proofs.
--   PubSub.Server: server.go. Buffers stand in a store, since the map, the writers and the requests
--     share them. Server.Paths, Server.Lifetime and Server.Requests hold proofs. Server.Board: the
--     abstract server, a board of logs by their ids; Board.Views, Board.Refinement: proofs.
--
-- Worker: internal/worker.
--   Worker.Loop: the variables of `Worker.Run` and a function for each case of its `select`.
--     Loop.System joins to it the goroutine that claims work, the running tasks and the channel
--     `completedTasks`; an event is what one of them does next, and an event that cannot happen
--     changes nothing. The queue is a function from the attempt and the number asked for to the
--     tasks that it gives out; the theorems that need it suppose that it gives out no more than
--     asked for (`IsModest`), as the queue service documents. Loop.Slots, Loop.Invariant,
--     Loop.Responses and Loop.Runs prove the invariant `Good`; Loop.Safety and Loop.Shutdown use it.
--     Loop.Signals adds the contexts that `Worker.Run` makes and the two signals of
--     cmd/multistage-docker-worker/main.go; how an attempt to claim work ends is one of its inputs,
--     and when `backoff.Retry` gives up is a parameter (`Retry`). Signals.Graceful, Signals.Stops,
--     Signals.Drain and Signals.Immediate: proofs.
--   Worker.Output: the way of a step's output to the live log: the pipes of `runStep`, a copy at the
--     end of each (Log.Pipe), and the logger that `RunTask` makes over the live log (Log.Fancy on
--     PubSub.Buffer). A schedule is a list of turns: a write to a pipe, its end, a turn of a copy, an
--     entry of anyone else, the closing of the live log. Output.Entries, Output.Delivered,
--     Output.Copied, Output.Lost, Output.Uploaded: proofs, the last with Worker.Task and
--     PubSub.Contents.
--   Worker.Calls: the monad of code that calls the container runtime or Taskcluster: the calls in
--     their order and a result or an error.
--   Worker.Step: `resolveValueFrom` and `runStep`. Step.Env, Step.Halves, Step.Outcome: proofs.
--   Worker.Artifact: artifact.go, `uploadArtifactImpl` and `uploadArtifact`. Artifact.Outcome: proofs.
--   Worker.Logic: `runTaskLogic`. A goroutine's channel is the value that it sends; which of
--     several receivers gets the one value of the last step, and which channel of the last `select`
--     is ready first, are parameters. Logic.TimeLimit, Logic.Pipeline, Logic.Cleanup, Logic.Success: proofs.
--   Worker.Task: `RunTask` and `uploadLog`. Its `select` reads a list of events; `none` means that it
--     waits for one still. The live log is given as the buffer that the deferred function finds, closes
--     and uploads; HTTP's client reads it to its end, 32768 bytes at a time. Task.Reports and
--     Task.Outcome: proofs.
--   Worker.Sandboxes: `runTaskLogic` with the sandboxes of Cri.Dind.
--   Worker.Examples and its children: the theorems at concrete inputs, as are PubSub.Examples,
--     WorkerProto.Examples, Cri.Examples, Command.Examples and Examples.
--
-- WorkerProto: internal/workerproto, the protocol with the process that runs the worker.
--   WorkerProto.Communicator: api.go and shutdown.go. A handler is one of the three that the package
--     adds; a packet is a text that a `Codec` decodes. `begin` is `Run` up to its call of `Parse`.
--     WorkerProto.Handshake and WorkerProto.Termination: proofs, the latter on the main loop too.
--   WorkerProto.Logger: log.go. Logger.Properties: proofs.
--   WorkerProto.Parser: proto.go, `Parse` and `Write`, on bytes. What the handler does is a parameter
--     too. Parser.RoundTrip: proofs. WorkerProto.Stream: `Communicator.Run`, the handlers on the bytes
--     of the stream. The lines that `Parse` logs are in its result, and what
--     `onHello` logs is in the communicator; their order among each other is left out.
--
-- Cri: internal/cri. The specification and the status of a container (cri.go).
--   Cri.Docker.Logs: `dockerContainer.Run`: the outer loop reads a frame of the log stream, the inner
--     one copies its payload in parts. Logs.Ends, Logs.Payload, Logs.RoundTrip: proofs.
--   Cri.Docker.Pull: `ImagePull`. Pull.Progress: proofs.
--   Cri.Docker.Containers: what the other methods ask of Docker's client and make of its answers.
--   Cri.Dind: `SandboxCreate` of dind.go, a function for each stretch between two early returns; the
--     deferred removal looks at how it ends. Dind.Cleanup, Dind.Ready: proofs.
--   Cri.Dind.Tls: `tlsConfigFromTar`. Tls.Contents: what an archive describes; Tls.Files,
--     Tls.Pairs: proofs.
--   Cri.Runtime: the interfaces `CRI` and `Container` of cri.go as records of operations, which
--     `NewDocker` fills. Cri.Host: the factory of sandboxes over such a runtime; Host.Looks,
--     Host.Ready: proofs, over Docker.
--
-- Log: internal/log. Log: the copying of whole streams; Log.Copies: proofs. Log.Pipe: the same copy at
--   the end of a pipe, one call of `ReadLine` or of the pipe's `Read` at a time; Pipe.Turns,
--   Pipe.Measure, Pipe.Kept: proofs. Log.Fancy: `FancyLog`;
--   Fancy.Panics: proofs. Log.Tee: tee.go, with its proofs; a logger is a record of operations, which
--   a tee of such loggers fills too.
-- LiveLog: internal/livelog/livelog.go, `New` and `Allocate`. LiveLog.Urls: proofs, with
--   PubSub.Server. LiveLog.Serving: `Serve`, with its proofs.
-- Config: internal/config/config.go. Worker.Setup: `NewWorker` and `taskCredentials` of worker.go.
-- Command: cmd/multistage-docker-worker, `Run` up to the run of the worker. Command.Termination and
--   Command.Stdin: proofs, with WorkerProto. Command.Process: `main`, the run of the worker
--   (Worker.Loop.Signals) and the exit status; Process.Ends: proofs.
-- Exception and Payload: the types that these share. An error is a text, an error wrapped in a text,
--   or an exception with its kind.
--
-- `dockerContainer.Run` runs on fuel: one more round of the outer loop than the stream has bytes, and
-- as many of the inner loop as the payload has, since each round but the last takes eight bytes of the
-- stream, and one of the payload, at least. Numbers are printed with at most 20 digits, as many as 64
-- bits have. A subscription is read to its end (PubSub.Contents) with one read more than the buffer has
-- bytes, since each read but the last gives one at least. All other loops are lists of events or recursion on the
-- list that the source's loop runs over. Numbers are native; the time limit of a task keeps the
-- wrap-around of an int64. Offsets, lengths, times and the numbers of the configuration are taken to
-- fit their types and not to be negative.
--
-- Not modelled: the log lines of internal/worker other than what a step's containers write; the
-- encoding of a request as JSON, which is taken to succeed; imports and the checks that a type
-- implements an interface. Of the standard library, `io.Pipe`, the reading
-- of a body to its end, `bufio.Reader.ReadLine` and
-- `http.Server` are modelled as far as the code uses them. The queue, HTTP, JSON and YAML decoding,
-- gjson, tar, TLS, `backoff.Retry`, websocktunnel, colours, the client of Docker and, for the
-- worker, the container runtime are parameters (`World`, `QueueWorld`, `FileWorld`, `TaskWorld`,
-- `TaskQueue`, `Codec`, `LogWorld`, `PullWorld`, `DindWorld`, `ListenWorld`, `CommandWorld`,
-- `MainWorld`, `DockerClient`, `Surroundings`, `Style`, `Retry`). `backoff.Retry` is supposed to
-- return nil only after an attempt that told it nil (`IsRetry`), where a theorem needs it.
pub mod Common
pub mod PubSub
pub mod Exception
pub mod Payload
pub mod Cri
pub mod Log
pub mod LiveLog
pub mod Config
pub mod Command
mod Examples
pub mod Worker
pub mod WorkerProto
