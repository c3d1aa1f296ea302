-- ===== src/Lib.antt =====
-- ipaversion: a proxy that sees the request by which iTunes buys an app, asks the store for the
-- app's older versions, and downloads one of them as a complete package.
--
-- The parts, and how they interact:
-- - main.go reads the flags, switches the system proxy, starts the proxy with an add-on, waits
--   for one value on the add-on's channel, and then reads indices and commands from the terminal.
-- - ipaversionlib/ipaversion.go is the add-on. It takes the first buy request (the mutex), asks
--   the store for the latest version, replays the request for each version that -start and -end
--   select, and sends true or false on the channel.
-- - ipaversionlib/appstore_download.go and app.go read an answer of the store as an app, and
--   ipaversionlib/http.go clones requests and decodes bodies.
-- - ipaversionlib/app.go and util.go download an app, and
--   ipaversionlib/appstore_replicate_sinf.go adds the metadata and the sinfs to the archive.
--
-- The files:
-- - Base: numbers, lists, Go's int (ℤ) and strings (Text, lists of code points), with what the
--   source uses of strings, unicode, strconv and path/filepath. Base/Text/Digits: a number that
--   is printed is read back.
-- - Outcome: how a Go call ends: with its results, an error, or a panic.
-- - Plist: DownloadResult, DownloadItemResult, Sinf, packageManifest, packageInfo, and the values
--   of a metadata map.
-- - World: the files, the open zip writers, the faults to come, and the requests sent. Each call
--   of os and archive/zip takes one entry of the list of faults, which lets it fail, and says
--   then what a write has left of the file and of an archive's entry. World/Quiet is about worlds
--   with no fault left, World/Ends about how calls end in any world, World/Post and World/Yields
--   about the world that they leave when they return no error, and World/Frame about the files
--   that they leave alone.
-- - App: GetDownloadItemResult and GetAppInfo. App/Laws: when they return what; App/Panics: when
--   they panic.
-- - Package: ApplyPatches, writeMetadata, replicateZip (Metadata), readInfoPlist,
--   readManifestPlist, readBundleName (Read), Zip, replicateSinfFromManifest,
--   replicateSinfFromInfo, ReplicateSinf (Sinf). Pairs: when Zip pairs; Quiet and Seal: the
--   archive that results; Safe: the panics; Frame: the files left alone; Filled, Atomic and
--   Patched: what is on the disk after any faults.
-- - Http: CloneRequest, GzipDecode, GzipDecodeReader.
-- - Download: fileExists, WriteCounter, DownloadFile (Fetch), DownloadApp (Steps); Complete: what
--   a download leaves; Refused: what a refused one leaves; Fetched and Packaged: what any that
--   returns no error has left; Frame: the files it leaves alone; Panics: with what it may panic;
--   Again: what a try after failures leaves; Progress: what a download prints.
-- - Addon: min, max and the index range (Range), the Addon struct (State), replayRequest
--   (Replay), handleBuyRequest, Request and Response (Handle). Bounds, Retry, History, Buy, Costs
--   and Once are about the range, one version, a range of versions, one flow, the requests of
--   each version, and a run of flows; Kept, Invariant, Calm and Dumps about what any flow keeps;
--   Defaults about runs without -start and -end. Race has the steps of Request in goroutines that
--   interleave; Race/Alone is about one that runs alone, Race/Exclusion about any interleaving,
--   and Race/Silence about the value on the channel.
-- - Console: the system proxy (Proxy), handleInput (Input), the table of commands (Help), main
--   (Process). Rounds and Cleanup are about the input loop and the proxy at the end of a run,
--   Dump about dumps that -i reads, Whole about a run from the buy request to the package, Waits
--   about when a run waits, and Refusal about one in which the store answers with no app.
--   Deciding finds the round that ends the input loop, Left and Crash say what it has read, Again
--   is about an index that is typed again after failures, and Twice about a second run with -i.
--   Lifetime has the steps of a capturing main among those of the flows, of the server and of
--   signals, in any order; Switched is about the system proxy then, Ready and Asked about what
--   handleInput works on; Alone, Same and Sequential show that such a run is one of Process,
--   Onward and Scheduled the converse, Bought is about one from the buy request to the package,
--   Ended about why one ends; Finishing goes from each point of a run to its end, and Unstuck and
--   Bought use it.
-- - Trials: the programs test/ipatest, test/plist-test, (Recover) test/recover-test and (Serving)
--   test/proxy-test.
-- - Tests: concrete inputs.
--
-- State is passed explicitly. A method of the add-on maps a session, which is the add-on's fields
-- and the world, to the next one; log.Panicln and a nil pointer are the outcome panic, and a
-- deferred recover is a function of the outcome. What a step has done stays done when it fails.
--
-- Parameters: World.Env holds the plist library's reading and writing, the check that
-- http.NewRequest makes of a method and a URL, and the server, which answers or fails for the
-- n-th request. Console.Outside holds how proxy.NewProxy and Proxy.Start end, the flows, the
-- reads from the terminal and whether a signal arrives. Trials/Serving takes NewProxy, AddAddon
-- and Start.
--
-- Bounds and fuel: numbers have no upper bound but where strconv.Atoi reads one, which is 64
-- bits. The index range cannot overflow, since a length is added to a negative int only. The
-- counter of requests, an int64, grows by at most four for a version. replayRequest recurs on its
-- retries. The replay loop has as many rounds as its range. handleInput runs for a number of
-- rounds, and as many rounds as there are reads decide it.
--
-- Not modelled: go-mitmproxy and sysproxy, of which the calls are parameters or are recorded;
-- what is printed, but for the version, the table of commands and the progress of a download;
-- closing of readers and file descriptors; the wait for Enter at the end of main; a separator of
-- paths that is not a slash; map iteration and the order of headers; data races within a step of
-- Addon/Race, which is the test of the mutex, the query for the latest version, that of one
-- version with its retries, or the send on the channel. In Process, Proxy.Start is taken to fail
-- before the first flow or not at all, and a signal to come while main waits or reads; in
-- Lifetime they come at any step, where a step of main is a call of the system proxy, of
-- signal.Notify, of proxy.NewProxy, a receipt, a round of handleInput, or the deferred calls.
pub mod Base
pub mod Outcome
pub mod Plist
pub mod World
pub mod App
pub mod Package
pub mod Http
pub mod Download
pub mod Addon
pub mod Console
pub mod Trials
mod Tests
