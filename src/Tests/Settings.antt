-- ===== src/Tests/Settings.antt =====
-- Loading of the configuration.
use distributed_logs_aggrega.Base.{String, ◌≡◌, arith, ◌==◌, if◌then◌else◌}
use distributed_logs_aggrega.Base.Int.{pos}
use distributed_logs_aggrega.Config.{Config, default}
use distributed_logs_aggrega.Config.Load.{
  Env, FileRead, contents, not_exist, Unmarshalled, decoded, load, override_port,
}
use distributed_logs_aggrega.Base.Decimal.{decimal_ℤ}
use distributed_logs_aggrega.Config.Port.{override_port-decimal}
use distributed_logs_aggrega.Config.Precedence.{overridden, map_loaded, empty_env, load_env}

abbrev on_port : String → Env
on_port port name = if name == "SERVER_PORT" then port else ""

-- A file that names a host.
abbrev named_host : String → Config → Unmarshalled
named_host d cfg = decoded (record cfg { server = record (cfg.server) { host = d } })

abbrev one_file : String → FileRead
one_file path = if path == "app.yaml" then contents "example.org" else not_exist

load_env_example :
    load named_host (on_port "9000") one_file "app.yaml"
    ≡ map_loaded (overridden (on_port "9000")) (load named_host empty_env one_file "app.yaml")
load_env_example = load_env named_host one_file (on_port "9000") "app.yaml"

override_port-decimal_example :
    override_port (decimal_ℤ (pos 8443)) default
    ≡ record default { server = record (default.server) { port = pos 8443 } }
override_port-decimal_example = override_port-decimal (pos 8443) default (omega arith)
