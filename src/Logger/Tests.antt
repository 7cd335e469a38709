-- ===== src/Logger/Tests.antt =====
-- Lines of Logger.cpp.
use my_testserver.Prelude.{◌≡◌, refl, codes}
use my_testserver.Prelude.Int.{to_string}
use my_testserver.Logger.{instance_start, access_all, Use, log_at, log_error}

abbrev accepted : Use
accepted = record {
  now = codes "2025/03/07 00:05:59";
  file = codes "a.cpp";
  line = 7;
  formatted = codes "accepted";
}

abbrev failed : Use
failed = record accepted { formatted = codes "failed" }

one_line :
    (access_all instance_start (log_error failed)).output
    ≡ codes "2025/03/07 00:05:59 [ERROR] a.cpp:7 - failed\n"
unfolding log_at to_string
one_line = refl
