-- ===== src/Versions/Tests.antt =====
-- Versions compared and checked at concrete texts.
use fsfuse.Base.{Returns}
use fsfuse.Base.Bytes.{chars}
use fsfuse.Versions.{compare_dotted_version}
use fsfuse.Versions.Order.{Verdict, compare_dotted_version-Verdict}

compare_dotted_version-Verdict_example :
    Returns
      (Verdict (chars "0.13") (chars "0.5.1"))
      (compare_dotted_version (chars "0.13") (chars "0.5.1"))
compare_dotted_version-Verdict_example =
    compare_dotted_version-Verdict (chars "0.13") (chars "0.5.1")
