-- ===== src/Tests/Settings.antt =====
-- Loading configurations.
use redis_dns.Prelude.{◌≡◌, ◌⊎◌, [], ◌∷◌, Option, none, some, false}
use redis_dns.Prelude.Bytes.{Bytes, ascii}
use redis_dns.Prelude.Int.{pos}
use redis_dns.Net.{is_nil}
use redis_dns.Config.{Config, Race, loaded, read_failed, parse_failed, default, load}
use redis_dns.Config.Laws.{IsLoaded, load-IsLoaded}

abbrev getenv : Bytes → Bytes
getenv v = ascii "10.0.0.1:53"

abbrev read_file : Bytes → Option Bytes
read_file path = some []

abbrev unmarshal : Bytes → Config → Option Config
unmarshal text cfg = some cfg

load-IsLoaded_example :
    ((load getenv read_file unmarshal (ascii "c.yml") ≡ read_failed)
      × (is_nil (ascii "c.yml") ≡ false)
      × (read_file (ascii "c.yml") ≡ none))
    ⊎ ((text : Bytes) × (load getenv read_file unmarshal (ascii "c.yml") ≡ parse_failed)
        × (read_file (ascii "c.yml") ≡ some text)
        × (unmarshal text default ≡ none))
    ⊎ ((cfg : Config) × (load getenv read_file unmarshal (ascii "c.yml") ≡ loaded cfg)
        × IsLoaded getenv read_file unmarshal cfg)
load-IsLoaded_example = load-IsLoaded getenv read_file unmarshal (ascii "c.yml")

abbrev race : Race
race = record {
  enabled = none;
  ports = pos 443 ∷ [];
  timeout = pos 800;
  tcp_deadline = pos 0;
  icmp = some false;
  pref_ttl = pos 3600;
  pref_neg_ttl = pos 0;
  recheck_hits = pos 0;
  recheck_age = pos 60;
}
