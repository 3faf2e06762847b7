-- ===== src/Tunnel/Tests.antt =====
-- A download that succeeds, and a concrete case of what is proved about it.
use lokifix.Agent.Tests.{empty_disk}
use lokifix.Tunnel.{Fetched, download_file, public_url}
use lokifix.Tunnel.Download.{AllOrNothing, download_file_lem}
use lokifix.Prelude.{◌≡◌, refl, false, some, codes, has_prefix}

secure : public_url (codes "https://a.trycloudflare.com") ≡ codes "wss://a.trycloudflare.com"
unfolding public_url has_prefix
secure = refl

abbrev broken : Fetched
broken = record { status = 200; body = codes "ab"; complete = false }

download_file_lem_example :
    AllOrNothing
      (codes "c")
      (some broken)
      empty_disk
      (download_file (codes "c") (some broken) empty_disk)
download_file_lem_example = download_file_lem (codes "c") (some broken) empty_disk
