-- ===== src/Advert/Tests.antt =====
-- A packet with all its fields, and one without an id.
use fsfuse.Base.{◌≡◌}
use fsfuse.Base.Bytes.{chars}
use fsfuse.Advert.{parse_advert_packet}
use fsfuse.Advert.Fields.{outcome, fields, parse_advert_packet-outcome}

parse_advert_packet-outcome_example :
    parse_advert_packet (chars "fs2protocol-0.13:42080:abc:9")
    ≡ outcome (fields (chars "fs2protocol-0.13:42080:abc:9"))
parse_advert_packet-outcome_example =
    parse_advert_packet-outcome (chars "fs2protocol-0.13:42080:abc:9")
