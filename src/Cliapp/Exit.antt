-- ===== src/Cliapp/Exit.antt =====
-- The exit codes and `classifyErr` of internal/cliapp/cliapp.go.
use otcat.Base.{ℕ, Bool, true, false, if◌then◌else◌}
use otcat.Errors.{
  Error, NetError, net, eof, unexpected_eof, canceled, invalid_input, exception_response,
  not_implemented, dial_failed, deadline_failed, write_failed, read_header_failed, read_pdu_failed,
  close_failed, context_done,
}

abbrev pub exit_ok : ℕ
exit_ok = 0

abbrev pub exit_usage : ℕ
exit_usage = 1

abbrev pub exit_connection : ℕ
exit_connection = 2

abbrev pub exit_protocol : ℕ
exit_protocol = 3

abbrev pub exit_write_aborted : ℕ
exit_write_aborted = 4

abbrev pub exit_io : ℕ
exit_io = 5

abbrev pub exit_interrupted : ℕ
exit_interrupted = 130

-- Whether an error has a `Timeout` method: the network's errors do, `io.EOF` and a cancelled context
-- do not.
abbrev pub is_net : NetError → Bool
is_net (net timeout) = true
is_net eof = false
is_net unexpected_eof = false
is_net canceled = false

abbrev pub has_timeout : Error → Bool
has_timeout (dial_failed e) = is_net e
has_timeout (deadline_failed e) = is_net e
has_timeout (write_failed e) = is_net e
has_timeout (read_header_failed e) = is_net e
has_timeout (read_pdu_failed e) = is_net e
has_timeout (close_failed e) = is_net e
has_timeout (context_done deadline) = deadline
has_timeout _ = false

-- An error of the model passes at most one of the three tests in front.
unfoldable pub classify_err : Error → ℕ
classify_err (exception_response e) = exit_protocol
classify_err not_implemented = exit_usage
classify_err (invalid_input e) = exit_usage
classify_err e = if has_timeout e then exit_connection else exit_io
