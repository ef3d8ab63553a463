-- ===== src/Runs/Outputs.antt =====
-- internal/codec at concrete inputs, and the default watch of a float32 that is NaN.
use otcat.Base.{
  map, subst, ℕ, suc, ◌≡◌, refl, Option, some, none, [], ◌∷◌, ◌==◌, if◌then◌else◌, Text, codes,
  arith,
}
use otcat.Base.Int.{pos, negsuc}
use otcat.Base.Strings.{split, digits_before, itoa}
use otcat.Cliapp.Actions.{watch_options}
use otcat.Watch.Backoff.{full_jitter_backoff, backoff_upper, backoff_exponent}
use otcat.Watch.Poller.{interval_of, max_backoff_of, Poll, poll_round, on_failure, sleep, start}
use otcat.Errors.{err, not_connected, ok}
use otcat.Modbus.Convert.{Scalar}
use otcat.Protocol.{quality_string, good, scalar, scalars, text, Value}
use otcat.Cliapp.Exit.{exit_io}
use otcat.Cliapp.Interfaces.{Device}
use otcat.Cliapp.Run.{Moment, run_watch, watch_from, play}
use otcat.Cliapp.Parse.{default_config}
use otcat.Codec.Format.Items.{split-format_value}
use otcat.Codec.Format.{scalar_text, format_value, join, bool_text, int_text}
use otcat.Codec.Csv.Reader.{read_csv}
use otcat.Codec.Json.{
  json_words, json_quality, json_char, json_chars, json_string, json_field, json_object, json_array,
  json_scalar, json_scalars, json_payload, json_value,
}
use otcat.Codec.Json.Lines.{IsLine, json_value-IsLine}
use otcat.Codec.Encoders.{new_console, csv_header, csv_encode, json_sink}
use otcat.Codec.Encoders.Files.{encode_all, data_rows, read_csv-csv_encode}
use otcat.Codec.Encoders.Failures.{run_watch_no_text}

abbrev pub stamp : ℕ → Text
stamp tick = codes "2026-01-02T03:04:05Z"

abbrev pub float_text : ℕ → Text
float_text bits = codes "1.5"

-- 0x7FC00000 is a NaN.
abbrev pub json_float : ℕ → Option Text
json_float bits = if bits == 0x7FC00000 then none else some (codes "1.5")

abbrev quoted_value : Value
quoted_value = record {
  address = codes "holding:\"1\",";
  type_name = codes "ack";
  value = text (codes "a,b\nc");
  quality = good;
  raw = [];
}

abbrev array_value : Value
array_value = record {
  address = codes "holding:40001:2";
  type_name = codes "int16[]";
  value = scalars (Scalar.int16 (negsuc 6) ∷ Scalar.int16 (pos 12) ∷ []);
  quality = good;
  raw = 65529 ∷ 12 ∷ [];
}

abbrev nan_value : Value
nan_value = record {
  address = codes "holding:40001";
  type_name = codes "float32";
  value = scalar (Scalar.float32 0x7FC00000);
  quality = good;
  raw = 0x7FC0 ∷ 0 ∷ [];
}

read_csv-csv_encode_example :
    read_csv
      (encode_all
        (csv_encode stamp float_text)
        (quoted_value ∷ array_value ∷ [])
        (new_console [])).1.written
    ≡ csv_header ∷ data_rows stamp float_text 0 (quoted_value ∷ array_value ∷ [])
read_csv-csv_encode_example = read_csv-csv_encode stamp float_text quoted_value (array_value ∷ [])

abbrev array_line : Text
array_line =
    codes
      "{\"address\":\"holding:40001:2\",\"type\":\"int16[]\",\"value\":[-7,12],\"quality\":\"good\",\"ts\":\"2026-01-02T03:04:05Z\",\"raw\":[65529,12]}"

json_float-IsLine : (bits : ℕ) (t : Text) → json_float bits ≡ some t → IsLine t
json_float-IsLine bits t e =
    let q : codes "1.5" ≡ t = ground (arith, e) in subst IsLine q (ground arith)

array_value-line : json_value json_float (stamp 0) array_value ≡ some array_line
unfolding json_value json_payload json_scalars json_scalar json_array json_object json_field
    json_string json_chars json_char json_quality json_words quality_string int_text bool_text join
    itoa digits_before
array_value-line = refl

json_value-IsLine_example : IsLine array_line
json_value-IsLine_example =
    json_value-IsLine json_float json_float-IsLine (stamp 0) array_line array_value (ground arith)
      array_value-line

-- The first read fails, the later ones are no number.
abbrev nan_device : Device
nan_device = record {
  State = ℕ;
  connect = λ s. (none, s);
  close = λ s. s;
  read = λ spec s. (if s == 0 then err not_connected else ok nan_value, suc s);
  write = λ spec literal s. (ok tt, s);
  explain = none;
}

abbrev quiet : Moment
quiet = record { ctx_err = none; draw = 0; sleep_err = none }

abbrev after_failure : Poll Value
after_failure = record {
  attempt = 1;
  emitted = 0;
  values = [];
  reported = not_connected ∷ [];
  sleeps = 0 ∷ [];
}

run_watch_no_text_example :
    run_watch nan_device
      (json_sink stamp json_float)
      default_config
      (quiet ∷ quiet ∷ quiet ∷ [])
      0
      (new_console [])
    ≡ (some exit_io, 2, record (new_console []) { tick = 1 })
unfolding watch_from play poll_round on_failure sleep start full_jitter_backoff backoff_upper
    interval_of watch_options backoff_exponent max_backoff_of
run_watch_no_text_example =
    run_watch_no_text stamp nan_device json_float default_config (quiet ∷ []) (quiet ∷ []) quiet 0 1
      2 (new_console []) (new_console []) after_failure nan_value 0x7FC00000 refl refl refl refl
      refl refl

split-format_value_example :
    split b';'
      (format_value float_text (scalars (Scalar.int16 (negsuc 6) ∷ Scalar.int16 (pos 12) ∷ [])))
    ≡ map (scalar_text float_text) (Scalar.int16 (negsuc 6) ∷ Scalar.int16 (pos 12) ∷ [])
split-format_value_example =
    split-format_value float_text (λ bits. ground arith) (Scalar.int16 (negsuc 6))
      (Scalar.int16 (pos 12) ∷ [])
