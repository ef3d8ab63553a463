-- ===== src/Lib.antt =====
-- otcat is a command line tool that reads, watches and writes values of industrial devices. Its one
-- implemented protocol is Modbus TCP. The parts and how they work together:
--   * internal/modbus: a request goes down through the driver (address specs and literals), the client
--     (one transaction at a time over one connection), the PDU encoders and the MBAP header, and the
--     response comes back up through the matching decoders.
--   * internal/mock: a server with the four Modbus tables that answers the same eight functions, and a
--     simulated tank that writes its level into a register; cmd/otcat-mockplc runs the two.
--   * internal/watch: the polling loop with its backoff.
--   * internal/protocol: the values and plans that drivers return.
--   * internal/cliapp: the command line, from the arguments over the safety gate to the exit code.
--   * internal/codec: the values as JSON, CSV or bare text on standard output.
--   * cmd/otcat-latencyprobe: times reads of a device and reports percentiles.
--
-- Which file models what:
--   * Base and the modules under it: lists, bytes, bits and texts, and the parts of Go's strings and
--     strconv that the program calls, over code points. A byte or a word is a natural number; every
--     wrap-around is written out (`u8`, `u16`, `% 2 ^ w`).
--   * Errors: the error values, `Result` for Go's `(value, error)`; messages are left out.
--   * Protocol: internal/protocol/driver.go.
--   * Modbus.Mbap: internal/modbus/mbap.go (`encodeMBAP`, `decodeMBAP`) and limits.go.
--   * Modbus.Pdu: internal/modbus/pdu.go, every encoder and decoder; its children hold the layouts of
--     requests and what the decoders accept.
--   * Modbus.Exception: internal/modbus/exception.go.
--   * Modbus.Transport: `net.Conn` and `io.ReadFull`, a parameter: a record of calls with one law,
--     that a read with no error filled its buffer.
--   * Modbus.Client: internal/modbus/client.go; `do_request` is `do`, a method is a function of the
--     client's state, and the mutex makes each of them one step.
--   * Modbus.Address: internal/modbus/address.go. Modbus.Convert: internal/modbus/convert.go, where a
--     float32 is its 32 bits and `strconv.ParseFloat` with `math.Float32bits` is a parameter.
--   * Modbus.Driver: internal/modbus/driver.go; Encoding is the part with no connection (`encodeWrite`,
--     `ExplainWrite`), Session is `Connect`, `Close`, `Read` and `Write`.
--   * Mock.Server: `dispatch` and the eight handlers of internal/mock/server.go over tables that are
--     functions of the cell's number; Mock.Server.Setup its setters. Mock.Connection: `handle` and
--     `shouldDrop`; its children are Rounds, on one round, and Segments, which cuts the byte stream.
--     Mock.Listener: `NewAt`, `serve`, `Close` and any number of connections, whose goroutines take turns
--     in any order between their calls of `ReadFull`, `shouldDrop` and `dispatch`; that the mutexes make
--     the last two one step each is taken for granted.
--   * Mock.Process: `TankProcess` of internal/mock/process.go, over a float64 that is a parameter.
--     Mock.Plant: the goroutines of cmd/otcat-mockplc/main.go as a relation of steps, one for each
--     critical section, so that connections, setters and `Drive` interleave freely.
--   * Mock.Link: a connection in memory between the two. It fills the client's transport, so that the
--     theorems under it run the client's code against the server's.
--   * Watch.Backoff and Watch.Poller: `fullJitterBackoff` and `Run` of internal/watch/poller.go, over
--     the answers that the context, the reader, the output and the generator give in each round.
--   * Codec: internal/codec/codec.go. Format is `formatValue` and what fmt prints; Csv is what
--     encoding/csv writes, with an RFC 4180 reader of its own; Json is what encoding/json writes for a
--     `Value` and a `WritePlan`; Encoders are the three encoders on a writer that may fail. The print of
--     a float32 and of a time are parameters.
--   * Cliapp.Config, Startup, Exit: `validate`, `buildDriver`, `buildEncoder` and `classifyErr` of
--     internal/cliapp/cliapp.go with its exit codes. Cliapp.Interfaces: the driver and the output that
--     the actions work with, as records. Cliapp.Actions: `runRead`, `runWrite`, `runWriteStream` and
--     `gateWrite` of internal/cliapp/actions.go, and the options and exit code of `runWatch`.
--     Cliapp.DryRun: `runDryRun`. Cliapp.Actions.Limits fills the driver with the Modbus one.
--     Cliapp.Run: `Run` and `runWatch`, over any drivers and encoders, of which `Run` takes those that
--     `buildDriver` and `buildEncoder` answer. Cliapp.Program: the drivers and encoders of the program,
--     where `dial` is a parameter, what the dialer returns for an address.
--     Cliapp.Args: the parsing loop of Go's flag package, over any table of flags. Cliapp.Parse:
--     `parseArgs` of internal/cliapp/flags.go with its table, and `Run` from the arguments on;
--     `time.ParseDuration` is a parameter.
--   * Probe: cmd/otcat-latencyprobe/main.go over any transport; a sample is a whole number of
--     microseconds, and the rank of a percentile, a float product, is a parameter.
--   * EndToEnd: a whole command, from its arguments over the driver and the encoder that its flags choose
--     down to the server's table and back up to standard output.
--   * Runs: the theorems at concrete inputs.
--
-- Bounds and fuel: a table has 65536 cells. `handle` runs for as many rounds as bytes have arrived,
-- which is enough, since each round takes seven at least or closes the connection. The loop that reads
-- the flags runs once more than there are arguments, since each pass but the last takes one at least.
-- `itoa` writes up to 20 digits, which every number below 2^64 fits. The client's counter is a uint32
-- of which a request carries the low 16 bits.
--
-- Not modelled: sockets, deadlines and latency (their results are the transport's), the text of
-- messages, timestamps, `isInteractive`, the flags and the printing of cmd/otcat-latencyprobe and
-- cmd/otcat-mockplc, and the mains of otcat, which pass the arguments on and exit with the code.
pub mod Base
pub mod Errors
pub mod Protocol
pub mod Modbus
pub mod Mock
pub mod Watch
pub mod Codec
pub mod Cliapp
pub mod Probe
pub mod EndToEnd
pub mod Runs
