-- ===== src/Cliapp/Parse/Groups.antt =====
-- The flags that a printed configuration gives, read group by group.
use otcat.Base.{◌≡◌, ◌<◌, ◌^◌, refl, ◌∙◌, Option, some, Text, codes}
use otcat.Base.Int.{ℤ}
use otcat.Cliapp.Config.{Config}
use otcat.Cliapp.Args.{name_and_value, cut_value, find_flag}
use otcat.Cliapp.Parse.{flag_table}
use otcat.Cliapp.Parse.Printed.{
  Reads, endpoints_of, specs_of, switches_of, codec_of, timing_of, shows_of, to_config,
  Reads-string, Reads-uint, Reads-duration, Reads-bool,
}

module _ (parse_duration : Text → Option ℤ) where
  pub Reads-endpoints :
      (c : Config)
      → Reads parse_duration (endpoints_of c) (
          to_config parse_duration (λ k. record k {
            modbus_addr = c.modbus_addr;
            eip_addr = c.eip_addr;
            s7_addr = c.s7_addr;
            bacnet_addr = c.bacnet_addr;
          }))
  unfolding name_and_value cut_value find_flag flag_table
  Reads-endpoints c rest k =
      Reads-string parse_duration (codes "modbus") (λ x k. record k { modbus_addr = x })
        c.modbus_addr (refl, refl, refl) _ _
      ∙ Reads-string parse_duration (codes "eip") (λ x k. record k { eip_addr = x }) c.eip_addr
          (refl, refl, refl) _ _
      ∙ Reads-string parse_duration (codes "s7comm") (λ x k. record k { s7_addr = x }) c.s7_addr
          (refl, refl, refl) _ _
      ∙ Reads-string parse_duration (codes "bacnet") (λ x k. record k { bacnet_addr = x })
          c.bacnet_addr (refl, refl, refl) _ _

  pub Reads-specs :
      (c : Config)
      → Reads parse_duration (specs_of c) (
          to_config parse_duration (λ k. record k {
            read_spec = c.read_spec;
            watch_spec = c.watch_spec;
            write_spec = c.write_spec;
            value = c.value;
          }))
  unfolding name_and_value cut_value find_flag flag_table
  Reads-specs c rest k =
      Reads-string parse_duration (codes "read") (λ x k. record k { read_spec = x }) c.read_spec
        (refl, refl, refl) _ _
      ∙ Reads-string parse_duration (codes "watch") (λ x k. record k { watch_spec = x })
          c.watch_spec (refl, refl, refl) _ _
      ∙ Reads-string parse_duration (codes "write") (λ x k. record k { write_spec = x })
          c.write_spec (refl, refl, refl) _ _
      ∙ Reads-string parse_duration (codes "value") (λ x k. record k { value = x }) c.value
          (refl, refl, refl) _ _

  pub Reads-switches :
      (c : Config)
      → Reads parse_duration (switches_of c) (
          to_config parse_duration
            (λ k. record k { from_stdin = c.from_stdin; confirm = c.confirm; dry_run = c.dry_run }))
  unfolding name_and_value cut_value find_flag flag_table
  Reads-switches c rest k =
      Reads-bool parse_duration (codes "from-stdin") (λ x k. record k { from_stdin = x })
        c.from_stdin (refl, refl, refl) _ _
      ∙ Reads-bool parse_duration (codes "confirm") (λ x k. record k { confirm = x }) c.confirm
          (refl, refl, refl) _ _
      ∙ Reads-bool parse_duration (codes "dry-run") (λ x k. record k { dry_run = x }) c.dry_run
          (refl, refl, refl) _ _

  pub Reads-codec :
      (c : Config)
      → c.unit_id < 2 ^ 64
      → Reads parse_duration (codec_of c) (
          to_config parse_duration (λ k. record k {
            unit_id = c.unit_id;
            data_type = c.data_type;
            byte_order = c.byte_order;
            word_order = c.word_order;
            raw_address = c.raw_address;
          }))
  unfolding name_and_value cut_value find_flag flag_table
  Reads-codec c small rest k =
      Reads-uint parse_duration (codes "unit") (λ x k. record k { unit_id = x }) c.unit_id
        (refl, refl, refl) small _ _
      ∙ Reads-string parse_duration (codes "type") (λ x k. record k { data_type = x }) c.data_type
          (refl, refl, refl) _ _
      ∙ Reads-string parse_duration (codes "byte-order") (λ x k. record k { byte_order = x })
          c.byte_order (refl, refl, refl) _ _
      ∙ Reads-string parse_duration (codes "word-order") (λ x k. record k { word_order = x })
          c.word_order (refl, refl, refl) _ _
      ∙ Reads-bool parse_duration (codes "raw-address") (λ x k. record k { raw_address = x })
          c.raw_address (refl, refl, refl) _ _

  pub Reads-timing :
      (duration_text : ℤ → Text) (c : Config)
      → parse_duration (duration_text c.timeout) ≡ some c.timeout
      → parse_duration (duration_text c.interval) ≡ some c.interval
      → parse_duration (duration_text c.max_backoff) ≡ some c.max_backoff
      → c.count < 2 ^ 64
      → Reads parse_duration (timing_of duration_text c) (
          to_config parse_duration (λ k. record k {
            timeout = c.timeout;
            interval = c.interval;
            max_backoff = c.max_backoff;
            count = c.count;
          }))
  unfolding name_and_value cut_value find_flag flag_table
  Reads-timing duration_text c timeout interval max_backoff small rest k =
      Reads-duration parse_duration (codes "timeout") (λ x k. record k { timeout = x })
        (duration_text c.timeout) c.timeout (refl, refl, refl) timeout _ _
      ∙ Reads-duration parse_duration (codes "interval") (λ x k. record k { interval = x })
          (duration_text c.interval) c.interval (refl, refl, refl) interval _ _
      ∙ Reads-duration parse_duration (codes "max-backoff") (λ x k. record k { max_backoff = x })
          (duration_text c.max_backoff) c.max_backoff (refl, refl, refl) max_backoff _ _
      ∙ Reads-uint parse_duration (codes "count") (λ x k. record k { count = x }) c.count
          (refl, refl, refl) small _ _

  pub Reads-shows :
      (c : Config)
      → Reads parse_duration (shows_of c) (
          to_config parse_duration
            (λ k. record k { show_version = c.show_version; show_help = c.show_help }))
  unfolding name_and_value cut_value find_flag flag_table
  Reads-shows c rest k =
      Reads-bool parse_duration (codes "version") (λ x k. record k { show_version = x })
        c.show_version (refl, refl, refl) _ _
      ∙ Reads-bool parse_duration (codes "help") (λ x k. record k { show_help = x }) c.show_help
          (refl, refl, refl) _ _
