-- ===== src/Lib.antt =====
-- A model of the Sumo Logic extension for AWS Lambda (lambda-extensions/), with the theorems about it.
--
-- The extension registers with the Lambda runtime, subscribes to the Telemetry API, takes batches of log
-- items from it by an HTTP server (the producer), keeps them in a buffered channel (the data queue), and
-- a consumer drains the queue and hands the messages to a client, which parses and enhances the items,
-- cuts them into chunks, posts these compressed to a Sumo Logic endpoint with retries, and stores what
-- it cannot post in an S3 bucket. In managed instance mode the producer never waits, and wakes the
-- consumer by signals.
--
-- The parts and their files:
--   Base: numbers, Boolean tests, lists, Go's errors and results, texts as lists of code points.
--   Utils: `Retry` and `StringInSlice` of lambda-extensions/utils/utils.go; its other functions are in
--     SumoClient/Codecs.
--   Config: lambda-extensions/config/config.go. Config/Defs has the record of the settings and
--     `setDefaults`, Config/Numbers the `strconv` calls, Config/Validate `validateConfig` as a list of
--     steps on its variables, and `GetConfig`.
--   Json: `map[string]interface{}`, which may be nil, and the values in it.
--   SumoClient: lambda-extensions/sumoclient/sumoclient.go. Services holds what the client calls and the
--     state: the package variables, the world, and logs of the requests and of the uploads. Endpoint has
--     `getHttpEndpoint` and `makeRequest`, Enhance `enhanceLogs` and `createCWLogLine`, Chunks
--     `createChunks`, Post `postToSumo` and `failoverHandler`, Send `SendLogs`, `SendAllLogs` and
--     `FlushAll`. Codecs has `Compress`, `CompressBuffer` and `ParseJson` of lambda-extensions/utils/utils.go
--     and `transformBytesToArrayOfMap`. `upload_to_s3` is `UploadToS3` of lambda-extensions/utils/awsutils.go.
--   Workers: lambda-extensions/workers/. Channel is Go's buffered channel, Sender the interface
--     `LogSender` and the client as an instance of it, Consumer and ManagedConsumer the two consumers,
--     Producer and ManagedProducer the handlers of the two servers. The workers are over any sender.
--     ManagedLoop has `processFlushSignals` and its turns among the requests to the server, each of both run
--     whole. Interleaving has the handlers and a drain of both modes as a step relation, one receive or send
--     of the data queue at a time; a run of its steps stands for the whole drains of Consumer and
--     ManagedConsumer, which run with no handler at work. Contended has the drains of the standard mode with
--     the handlers at work, as functions of what these get around them, for the main loop.
--   LambdaApi: lambda-extensions/lambdaapi/, with `runTimeAPIInit` of
--     lambda-extensions/sumologic-extension.go.
--   Main: `processEvents` of lambda-extensions/sumologic-extension.go, as a loop over turns; a turn says
--     whether the context is done and what the handlers get before, during and after each drain of the
--     turn. Main/Startup has `init` and `main`, the constructors, and `init` of lambda-extensions/utils/awsutils.go.
--   Examples: the theorems at concrete data.
--
-- State is passed explicitly, and a call that can fail returns its error as a value. A piece of a
-- goroutine returns, blocks, panics or diverges (`Run`); a call of the client returns or panics
-- (`Outcome`). The network, the AWS services, the clock, the gzip writer, encoding/json,
-- `url.ParseRequestURI` and `logrus.ParseLevel` are fields of `Services`, `Network`, `Sdk` and `Parsers`;
-- nothing is supposed of them but where a theorem says so: that a text can be compressed, that the clock
-- does not go back (`IsMonotone`), or that the endpoint takes every request (`IsHealthy`).
--
-- Bounds. `Retry` is recursion on the attempts left, and its limit is read as 0 if it is negative. The
-- loop that receives from a queue has as many rounds as the queue has messages and one more, which is
-- enough for an open queue; with the messages of the handlers that wait, in Workers/Contended. A
-- receive takes the message of a handler that waits, at a queue of capacity 0 too, in
-- Workers/Contended; the other modules have no handler that waits, and there the meeting of a sender
-- and a receiver at a channel of capacity 0 is not modelled. What a handler sends between two receives
-- of one drain is received by it in either case, and counts to what comes before that drain. A Go
-- integer is an unbounded integer; the values are far from the bounds of their types, and the ranges
-- of `strconv.ParseInt` are written out. The threshold of 0.8 of a capacity is capacity * 4 / 5, as
-- the rounding of float64 gives it for a capacity below 2^51. Numbers of JSON items are 64 opaque
-- bits.
--
-- Not modelled: log lines; the texts of messages, for which there are constructors; closing of response
-- bodies; the set-up of the AWS SDK beyond its region; the goroutines in which the servers run; the close of
-- the queue by `FlushDataQueue` as a step of Workers/Interleaving; the client's state at the panic from
-- which `main` recovers, which is a parameter; tests and scripts.
pub mod Base
pub mod Utils
pub mod Config
pub mod Json
pub mod SumoClient
pub mod Workers
pub mod LambdaApi
pub mod Main
pub mod Examples
