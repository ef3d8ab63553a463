-- ===== src/Codec/Encoders.antt =====
-- `JSONEncoder`, `CSVEncoder` and `RawEncoder` of internal/codec/codec.go, and the JSON encoder of the
-- dry run, on standard output. They fill the command line's `Sink`.
pub mod Files
pub mod Failures
use otcat.Base.{
  ℕ, suc, Bool, true, false, Option, some, none, List, [], ◌∷◌, ◌++◌, if◌then◌else◌, Text, codes,
}
use otcat.Errors.{Error, output_failed}
use otcat.Protocol.{quality_string, Value, WritePlan}
use otcat.Cliapp.Interfaces.{Sink}
use otcat.Codec.Format.{sprint, format_value}
use otcat.Codec.Csv.{csv_row}
use otcat.Codec.Json.{json_value, json_plan}

-- Standard output with what its next writes return, none of them an error once `results` is used up;
-- the number of values encoded so far; and the encoders' own state: the first write error of the two
-- JSON encoders, and of the CSV encoder whether its header is written, its buffer and its write error.
pub record Console : Type 0 where
  pub written : Text
  pub results : List (Option Error)
  pub tick : ℕ
  pub json_err : Option Error
  pub plan_err : Option Error
  pub header : Bool
  pub buffer : Text
  pub csv_err : Option Error

abbrev pub new_console : List (Option Error) → Console
new_console results = record {
  written = [];
  results = results;
  tick = 0;
  json_err = none;
  plan_err = none;
  header = false;
  buffer = [];
  csv_err = none;
}

-- One call of the writer. What a failed call has written is not known, and left out.
write_result : Text → Option Error → Console → Option Error × Console
write_result s none k = (none, record k { written = k.written ++ s })
write_result s (some e) k = (some e, k)

unfoldable pub write_out : Text → Console → Option Error × Console
unfolding write_result
write_out s k = elim k.results [
  | [] ↦ write_result s none k
  | r ∷ rs ↦ write_result s r (record k { results = rs })
]

abbrev pub next_tick : Console → Console
next_tick k = record k { tick = suc k.tick }

-- `csv.Writer.Write`, which only fills the buffer, and `Flush` with `Error`. A row longer than the
-- buffer reaches the output earlier, which no result shows.
unfoldable pub csv_write : Text → Console → Option Error × Console
csv_write line k = elim k.csv_err [
  | some e ↦ (some e, k)
  | none ↦ (none, record k { buffer = k.buffer ++ line })
]

unfoldable pub csv_flush : Console → Option Error × Console
csv_flush k =
    let (e, k') = write_out k.buffer k in
    elim k.csv_err [
      | some e ↦ (some e, k)
      | none ↦ (e, record k' { buffer = elim e [ none ↦ [] | some _ ↦ k'.buffer ]; csv_err = e })
    ]

abbrev pub csv_header : List Text
csv_header =
    codes "timestamp" ∷ codes "address" ∷ codes "type" ∷ codes "value" ∷ codes "quality" ∷ []

module _ (stamp : ℕ → Text) where
  unfoldable pub json_encode : (ℕ → Option Text) → Value → Console → Option Error × Console
  json_encode json_float v k = elim k.json_err [
    | some e ↦ (some e, next_tick k)
    | none ↦ elim (json_value json_float (stamp k.tick) v) [
      | none ↦ (some output_failed, next_tick k)
      | some line ↦
          let (e, k') = write_out (line ++ codes "\n") (next_tick k) in
          (e, record k' { json_err = e })
    ]
  ]

  unfoldable pub csv_fields : (ℕ → Text) → ℕ → Value → List Text
  csv_fields float_text tick v =
      stamp tick
      ∷ v.address
      ∷ v.type_name
      ∷ format_value float_text v.value
      ∷ quality_string v.quality
      ∷ []

  unfoldable pub csv_encode_row : (ℕ → Text) → Value → Console → Option Error × Console
  csv_encode_row float_text v k =
      let (e, k') = csv_write (csv_row (csv_fields float_text k.tick v)) (next_tick k) in
      elim e [ some e ↦ (some e, k') | none ↦ csv_flush k' ]

  unfoldable pub csv_encode : (ℕ → Text) → Value → Console → Option Error × Console
  csv_encode float_text v k =
      if k.header
      then csv_encode_row float_text v k
      else let (e, k') = csv_write (csv_row csv_header) k in
        elim e [
          | some e ↦ (some e, next_tick k')
          | none ↦ csv_encode_row float_text v (record k' { header = true })
        ]

  unfoldable pub raw_encode : (ℕ → Text) → Value → Console → Option Error × Console
  raw_encode float_text v k = write_out (sprint float_text v.value ++ codes "\n") (next_tick k)

  unfoldable pub plan_encode : WritePlan → Console → Option Error × Console
  plan_encode p k = elim k.plan_err [
    | some e ↦ (some e, k)
    | none ↦
        let (e, k') = write_out (json_plan p ++ codes "\n") k in (e, record k' { plan_err = e })
  ]

  abbrev pub json_sink : (ℕ → Option Text) → Sink
  json_sink json_float = record {
    Out = Console;
    encode = json_encode json_float;
    encode_plan = plan_encode;
  }

  abbrev pub csv_sink : (ℕ → Text) → Sink
  csv_sink float_text = record {
    Out = Console;
    encode = csv_encode float_text;
    encode_plan = plan_encode;
  }

  abbrev pub raw_sink : (ℕ → Text) → Sink
  raw_sink float_text = record {
    Out = Console;
    encode = raw_encode float_text;
    encode_plan = plan_encode;
  }
