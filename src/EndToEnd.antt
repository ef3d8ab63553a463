-- ===== src/EndToEnd.antt =====
-- Whole commands of internal/cliapp/cliapp.go: from the arguments to what stands on standard output.
pub mod Registers
use otcat.Base.{
  ℕ, suc, ◌≡◌, ◌<◌, refl, ap, ◌∙◌, sym, Bool, true, false, not, Option, some, none, List, [], ◌∷◌,
  ◌++◌, Text, codes, arith,
}
use otcat.Base.Int.{ℤ, pos}
use otcat.Errors.{Error, Result, ok, err}
use otcat.Protocol.{Value}
use otcat.Codec.Json.{json_value}
use otcat.Codec.Encoders.{Console, json_sink, json_encode, write_out, next_tick}
use otcat.Cliapp.Config.{Config, given, validate, count_non_empty, actions}
use otcat.Cliapp.Config.Usable.{validate_iff}
use otcat.Cliapp.Exit.{exit_ok}
use otcat.Cliapp.Interfaces.{Device, Sink}
use otcat.Cliapp.Program.{program_outputs}
use otcat.Cliapp.Startup.{Chosen, Drivers, driver_of, build_driver, build_encoder, json}
use otcat.Cliapp.Actions.{Input, run_read}
use otcat.Cliapp.Run.{run_with, Moment, run, run_built, connect_and_act, act}
use otcat.Cliapp.Parse.{parsed, parse_args, run_args}

module _ (stamp : ℕ → Text) (json_float : ℕ → Option Text) where
  -- The output behind one more line.
  abbrev pub printed : Text → Console → Console
  printed line k = record k { written = k.written ++ (line ++ codes "\n"); tick = suc k.tick }

  pub json_encode_ok :
      (v : Value) (line : Text) (k : Console)
      → json_value json_float (stamp k.tick) v ≡ some line
      → k.json_err ≡ none
      → k.results ≡ []
      → json_encode stamp json_float v k ≡ (none, printed line k)
  unfolding json_encode write_out
  json_encode_ok v line k e h r = ground (arith, e, h, r)

  run_read_ok :
      (d : Device) (c : Config) (s s' : d.State) (v : Value) (line : Text) (k : Console)
      → d.read c.read_spec s ≡ (ok v, s')
      → json_encode stamp json_float v k ≡ (none, printed line k)
      → run_read d (json_sink stamp json_float) c s k ≡ (exit_ok, s', printed line k)
  unfolding run_read
  run_read_ok d c s s' v line k reads e = ground (arith, reads, e)

  -- A configuration that is valid and asks for a read with JSON output, where the driver that it chooses
  -- connects and reads a value with a JSON text, over an output with no errors: `Run` prints that text as
  -- one more line, closes the driver and exits with code 0.
  pub run-read :
      (float_text : ℕ → Text) (ds : Drivers) (c : Config) (chosen : Chosen) (i : Input)
      (ms : List Moment) (s s1 s2 : ds.State) (v : Value) (line : Text) (k : Console)
      → c.show_help ≡ false
      → c.show_version ≡ false
      → validate c ≡ none
      → build_driver c ≡ ok chosen
      → build_encoder c.format ≡ ok json
      → given c.read_spec ≡ true
      → given c.write_spec ≡ false
      → ds.connect chosen s ≡ (none, s1)
      → ds.read chosen c.read_spec s1 ≡ (ok v, s2)
      → json_encode stamp json_float v k ≡ (none, printed line k)
      → run ds (program_outputs stamp json_float float_text) c i ms s k
        ≡ (some exit_ok, ds.close chosen s2, printed line k)
  unfolding run run_with run_built connect_and_act act
  run-read float_text ds c chosen i ms s s1 s2 v line k help version valid driver encoder reads
        writes connects got e =
      ground (
        arith,
        help,
        version,
        valid,
        driver,
        encoder,
        reads,
        writes,
        connects,
        run_read_ok (driver_of ds chosen) c s1 s2 v line k got e,
      )
