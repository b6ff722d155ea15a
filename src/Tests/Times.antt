-- ===== src/Tests/Times.antt =====
-- The theorems about dates and time zones of mytinyhttpd/utils at concrete inputs.
use my_tiny_httpd.Prelude.{
  ℕ, ◌≡◌, refl, false, true, List, [], ◌∷◌, some, none, ok, ◌>>=◌, replicate, ℤ, pos, negsuc, ◌+ℤ◌,
  arith,
}
use my_tiny_httpd.Utils.TimeZone.{to_utc_time, from_utc_time}
use my_tiny_httpd.Utils.TimeZone.Utc.{from_utc_time-to_utc_time}
use my_tiny_httpd.Utils.Transitions.{Rep, find_localtime, to_local_seconds, sentry_gmt}
use my_tiny_httpd.Utils.Transitions.InForce.{in_force, localtime_of, find_localtime-in_force}
use my_tiny_httpd.Utils.ZoneFile.{read_time_zone_file}
use my_tiny_httpd.Utils.ZoneFile.Header.{misread, read_time_zone_file-misread}
use my_tiny_httpd.Utils.ZoneFile.Ends.{zone_file}

-- 1969-07-20 20:17:40.
abbrev landing : ℤ
landing = negsuc 14182939

from_utc_time-to_utc_time_example : (to_utc_time landing true >>= from_utc_time) ≡ ok landing
from_utc_time-to_utc_time_example = from_utc_time-to_utc_time landing true (omega arith)

-- One hour is added in summer.
abbrev zone : Rep
zone = record {
  transitions =
      record { gmttime = pos 100000; localtime = pos 103600; localtime_idx = 1 }
      ∷ record { gmttime = pos 200000; localtime = pos 200000; localtime_idx = 0 }
      ∷ [];
  localtimes =
      record { gmt_offset = pos 0; is_dst = false; arrb_idx = 0 }
      ∷ record { gmt_offset = pos 3600; is_dst = true; arrb_idx = 4 }
      ∷ [];
  abbreviation = [];
}

find_localtime-in_force_example :
    find_localtime zone (sentry_gmt (pos 150000)) true
    ≡ localtime_of zone (in_force true (sentry_gmt (pos 150000)) none zone.transitions)
find_localtime-in_force_example =
    find_localtime-in_force zone (sentry_gmt (pos 150000)) true (refl, tt)

abbrev reserved : List ℕ
reserved = replicate 15 0

read_time_zone_file-misread_example :
    (rep : Rep) × (read_time_zone_file (zone_file b'2' reserved 2 2 0 2 2 8 (replicate 40 0))
      ≡ some rep)
    × (rep.transitions ≡ [])
    × ((t : ℤ) → to_local_seconds rep t ≡ ok (t +ℤ pos 8, misread 8 0 0))
read_time_zone_file-misread_example =
    read_time_zone_file-misread b'2' reserved 2 2 1 2 8 0 0 (replicate 38 0) refl (omega arith)
      (omega arith) (omega arith) (omega arith) (omega arith)
