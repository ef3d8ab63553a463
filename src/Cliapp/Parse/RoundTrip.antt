-- ===== src/Cliapp/Parse/RoundTrip.antt =====
-- A configuration of internal/cliapp/flags.go written as a command line is what `parseArgs` reads back.
use otcat.Base.{
  Bool, ◌||◌, ◌≡◌, ◌<◌, ◌^◌, refl, ap, ◌∙◌, Option, some, none, [], ◌∷◌, Text, true, false,
}
use otcat.Base.Int.{ℤ, pos, negsuc}
use otcat.Cliapp.Config.{Config}
use otcat.Cliapp.Startup.{Format, json, csv, raw}
use otcat.Cliapp.Args.{
  finished, parse_bool, name_and_value, cut_value, find_flag, set_flag, assign, set_seen, named,
  undashed, parse_one, parse_all,
}
use otcat.Cliapp.Args.Loop.{parse_all-finished}
use otcat.Cliapp.Parse.{
  Vars, default_vars, flag_table, parsed, with_format, after_flags, parse_args,
}
use otcat.Cliapp.Parse.Printed.{Reads, reads, args_of, format_arg, format_name}
use otcat.Cliapp.Parse.Groups.{
  Reads-endpoints, Reads-specs, Reads-switches, Reads-codec, Reads-timing, Reads-shows,
}

abbrev is_json : Format → Bool
is_json json = true
is_json csv = false
is_json raw = false

abbrev is_csv : Format → Bool
is_csv json = false
is_csv csv = true
is_csv raw = false

abbrev is_raw : Format → Bool
is_raw json = false
is_raw csv = false
is_raw raw = true

abbrev put_format : Format → Vars → Vars
put_format f c = record c {
  json_flag = is_json f || c.json_flag;
  csv_flag = is_csv f || c.csv_flag;
  raw_flag = is_raw f || c.raw_flag;
}

-- A `time.Duration` is an int64.
abbrev pub IsDuration : ℤ → Type 0
IsDuration (pos n) = n < 2 ^ 63
IsDuration (negsuc n) = n < 2 ^ 63

-- The durations of a configuration are `time.Duration`s.
pub record HasDurations (c : Config) : Type 0 where
  pub timeout : IsDuration c.timeout
  pub interval : IsDuration c.interval
  pub max_backoff : IsDuration c.max_backoff

module _ (parse_duration : Text → Option ℤ) (duration_text : ℤ → Text)
    (printed : (d : ℤ) → IsDuration d → parse_duration (duration_text d) ≡ some d) where
  no_arguments : (c : Vars) → parse_one parse_duration flag_table [] c ≡ finished [] c
  unfolding parse_one
  no_arguments c = refl

  Reads-format : (f : Format) → Reads parse_duration (format_arg f ∷ []) (put_format f)
  unfolding parse_one undashed named set_seen assign set_flag find_flag cut_value name_and_value
      flag_table parse_bool
  Reads-format json = reads parse_duration (format_arg json ∷ []) (put_format json) (λ rest c. refl)
  Reads-format csv = reads parse_duration (format_arg csv ∷ []) (put_format csv) (λ rest c. refl)
  Reads-format raw = reads parse_duration (format_arg raw ∷ []) (put_format raw) (λ rest c. refl)

  -- The variables when every flag is read.
  abbrev final : Format → Config → Vars
  final f c = put_format f (record default_vars { config = record c { format = [] } })

  parse_all-args_of :
      (f : Format) (c : Config)
      → c.unit_id < 2 ^ 64
      → c.count < 2 ^ 64
      → HasDurations c
      → parse_all parse_duration flag_table (args_of duration_text f c) default_vars
        ≡ some (finished [] (final f c))
  unfolding args_of
  parse_all-args_of f c unit count durations =
      Reads-endpoints parse_duration c _ _
      ∙ Reads-specs parse_duration c _ _
      ∙ Reads-switches parse_duration c _ _
      ∙ Reads-format f _ _
      ∙ Reads-codec parse_duration c unit _ _
      ∙ Reads-timing parse_duration duration_text c (printed c.timeout durations.timeout)
          (printed c.interval durations.interval) (printed c.max_backoff durations.max_backoff)
          count _ _
      ∙ Reads-shows parse_duration c [] _
      ∙ parse_all-finished parse_duration flag_table [] [] (final f c) (final f c)
          (no_arguments (final f c))

  -- Where every int64 is read back as a duration from its print, the durations of a configuration are
  -- int64s, and its unit and count are below 2^64: the configuration with every flag given, in the order of their definition, is read back as it is, with the
  -- output format that its flag names.
  pub parse_args-args_of :
      (f : Format) (c : Config)
      → c.unit_id < 2 ^ 64
      → c.count < 2 ^ 64
      → HasDurations c
      → parse_args parse_duration (args_of duration_text f c)
        ≡ some (parsed (record c { format = format_name f }))
  unfolding parse_args with_format
  parse_args-args_of f c unit count durations =
      ap (λ o. elim o [ none ↦ none | some r ↦ after_flags r ])
        (parse_all-args_of f c unit count durations)
      ∙ chosen f
    where
      chosen :
          (g : Format)
          → after_flags (finished [] (final g c))
            ≡ some (parsed (record c { format = format_name g }))
      chosen json = refl
      chosen csv = refl
      chosen raw = refl
