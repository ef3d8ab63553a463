-- ===== src/Cliapp/Parse/Printed.antt =====
-- A configuration of internal/cliapp/flags.go written as a command line, which `parseArgs` reads back.
use otcat.Base.{
  ℕ, ◌≡◌, ◌<◌, ◌^◌, ◌∙◌, Bool, true, false, Option, some, none, List, [], ◌∷◌, ◌++◌, Text, codes,
  arith, ◌==◌, ◌||◌,
}
use otcat.Base.Int.{ℤ}
use otcat.Base.Strings.{itoa}
use otcat.Base.Numbers.{parse_uint_base0}
use otcat.Base.Numbers.Prints.{parse_uint_base0-itoa}
use otcat.Codec.Format.{bool_text}
use otcat.Cliapp.Config.{Config}
use otcat.Cliapp.Startup.{Format, json, csv, raw}
use otcat.Cliapp.Args.{
  Flag, seen, parse_bool, name_and_value, find_flag, set_flag, assign, set_seen, named, undashed,
  parse_one, parse_all,
}
use otcat.Cliapp.Args.Loop.{parse_all-seen}
use otcat.Cliapp.Parse.{Vars, string_flag, bool_flag, uint_flag, duration_flag, flag_table}

abbrev pub dashed : Text → Text
dashed name = b'-' ∷ b'-' ∷ name

abbrev pub format_name : Format → Text
format_name json = codes "json"
format_name csv = codes "csv"
format_name raw = codes "raw"

abbrev pub format_arg : Format → Text
format_arg f = dashed (format_name f)

abbrev pub endpoints_of : Config → List Text
endpoints_of c =
    dashed (codes "modbus")
    ∷ c.modbus_addr
    ∷ dashed (codes "eip")
    ∷ c.eip_addr
    ∷ dashed (codes "s7comm")
    ∷ c.s7_addr
    ∷ dashed (codes "bacnet")
    ∷ c.bacnet_addr
    ∷ []

abbrev pub specs_of : Config → List Text
specs_of c =
    dashed (codes "read")
    ∷ c.read_spec
    ∷ dashed (codes "watch")
    ∷ c.watch_spec
    ∷ dashed (codes "write")
    ∷ c.write_spec
    ∷ dashed (codes "value")
    ∷ c.value
    ∷ []

abbrev pub switches_of : Config → List Text
switches_of c =
    dashed (codes "from-stdin=" ++ bool_text c.from_stdin)
    ∷ dashed (codes "confirm=" ++ bool_text c.confirm)
    ∷ dashed (codes "dry-run=" ++ bool_text c.dry_run)
    ∷ []

abbrev pub codec_of : Config → List Text
codec_of c =
    dashed (codes "unit")
    ∷ itoa c.unit_id
    ∷ dashed (codes "type")
    ∷ c.data_type
    ∷ dashed (codes "byte-order")
    ∷ c.byte_order
    ∷ dashed (codes "word-order")
    ∷ c.word_order
    ∷ dashed (codes "raw-address=" ++ bool_text c.raw_address)
    ∷ []

abbrev pub timing_of : (ℤ → Text) → Config → List Text
timing_of duration_text c =
    dashed (codes "timeout")
    ∷ duration_text c.timeout
    ∷ dashed (codes "interval")
    ∷ duration_text c.interval
    ∷ dashed (codes "max-backoff")
    ∷ duration_text c.max_backoff
    ∷ dashed (codes "count")
    ∷ itoa c.count
    ∷ []

abbrev pub shows_of : Config → List Text
shows_of c =
    dashed (codes "version=" ++ bool_text c.show_version)
    ∷ dashed (codes "help=" ++ bool_text c.show_help)
    ∷ []

-- Every flag with its value; `f` is the output flag.
unfoldable pub args_of : (ℤ → Text) → Format → Config → List Text
args_of duration_text f c =
    endpoints_of c
    ++ specs_of c
    ++ switches_of c
    ++ (format_arg f ∷ [])
    ++ codec_of c
    ++ timing_of duration_text c
    ++ shows_of c

module _ (parse_duration : Text → Option ℤ) where
  assign_uint :
      (name s : Text) (put : ℕ → Config → Config) (n : ℕ) (rest : List Text) (c : Vars)
      → parse_uint_base0 s 64 ≡ some n
      → assign parse_duration name (uint_flag put) s rest c
        ≡ seen rest (record c { config = put n c.config })
  unfolding assign set_flag
  assign_uint name s put n rest c h = ground (arith, h)

  assign_duration :
      (name s : Text) (put : ℤ → Config → Config) (d : ℤ) (rest : List Text) (c : Vars)
      → parse_duration s ≡ some d
      → assign parse_duration name (duration_flag put) s rest c
        ≡ seen rest (record c { config = put d c.config })
  unfolding assign set_flag
  assign_duration name s put d rest c h = ground (arith, h)

  -- A flag at the front of the arguments is read into its variable.
  abbrev pub Reads : List Text → (Vars → Vars) → Type 0
  Reads arg put =
      (rest : List Text) (c : Vars)
      → parse_all parse_duration flag_table (arg ++ rest) c
        ≡ parse_all parse_duration flag_table rest (put c)

  pub reads :
      (arg : List Text) (put : Vars → Vars)
      → ((rest : List Text) (c : Vars)
          → parse_one parse_duration flag_table (arg ++ rest) c ≡ seen rest (put c))
      → Reads arg put
  reads arg put h rest c =
      parse_all-seen parse_duration flag_table (arg ++ rest) rest c (put c) (h rest c)

  abbrev pub to_config : (Config → Config) → Vars → Vars
  to_config put c = record c { config = put c.config }

  -- Behind the dashes stands the name of a flag of the table, and its value.
  abbrev pub IsFlag : Text → Text → Option Text → Flag Vars → Type 0
  IsFlag [] name value flag = ⊥
  IsFlag (d ∷ s) name value flag =
      ((d == b'-' || d == b'=') ≡ false)
      × (name_and_value (d ∷ s) ≡ (name, value))
      × (find_flag name flag_table ≡ some flag)

  parse_one-dashed :
      (s name : Text) (value : Option Text) (flag : Flag Vars) (args : List Text) (c : Vars)
      → IsFlag s name value flag
      → parse_one parse_duration flag_table (dashed s ∷ args) c
        ≡ set_seen parse_duration name flag value args c
  unfolding parse_one undashed named
  parse_one-dashed [] name value flag args c h = absurd h
  parse_one-dashed (d ∷ s) name value flag args c h = ground (arith, h.0, h.1, h.2)

  pub Reads-string :
      (name : Text) (put : Text → Config → Config) (x : Text)
      → IsFlag name name none (string_flag put)
      → Reads (dashed name ∷ x ∷ []) (to_config (put x))
  unfolding set_seen assign set_flag
  Reads-string name put x h =
      reads (dashed name ∷ x ∷ []) (to_config (put x))
        (λ rest c. parse_one-dashed name name none (string_flag put) (x ∷ rest) c h)

  pub Reads-uint :
      (name : Text) (put : ℕ → Config → Config) (x : ℕ)
      → IsFlag name name none (uint_flag put)
      → x < 2 ^ 64
      → Reads (dashed name ∷ itoa x ∷ []) (to_config (put x))
  unfolding set_seen
  Reads-uint name put x h small = reads (dashed name ∷ itoa x ∷ []) (to_config (put x)) (λ rest c.
      parse_one-dashed name name none (uint_flag put) (itoa x ∷ rest) c h
      ∙ assign_uint name (itoa x) put x rest c (parse_uint_base0-itoa x small))

  pub Reads-duration :
      (name : Text) (put : ℤ → Config → Config) (s : Text) (x : ℤ)
      → IsFlag name name none (duration_flag put)
      → parse_duration s ≡ some x
      → Reads (dashed name ∷ s ∷ []) (to_config (put x))
  unfolding set_seen
  Reads-duration name put s x h printed =
      reads (dashed name ∷ s ∷ []) (to_config (put x)) (λ rest c.
        parse_one-dashed name name none (duration_flag put) (s ∷ rest) c h
        ∙ assign_duration name s put x rest c printed)

  pub Reads-bool :
      (name : Text) (put : Bool → Config → Config) (x : Bool)
      → IsFlag (name ++ (b'=' ∷ bool_text x)) name (some (bool_text x)) (bool_flag put)
      → Reads (dashed (name ++ (b'=' ∷ bool_text x)) ∷ []) (to_config (put x))
  unfolding set_seen assign set_flag bool_text parse_bool
  Reads-bool name put true h =
      reads (dashed (name ++ (b'=' ∷ bool_text true)) ∷ []) (to_config (put true)) (λ rest c.
        parse_one-dashed (name ++ (b'=' ∷ bool_text true)) name (some (bool_text true))
          (bool_flag put) rest c h)
  Reads-bool name put false h =
      reads (dashed (name ++ (b'=' ∷ bool_text false)) ∷ []) (to_config (put false)) (λ rest c.
        parse_one-dashed (name ++ (b'=' ∷ bool_text false)) name (some (bool_text false))
          (bool_flag put) rest c h)
