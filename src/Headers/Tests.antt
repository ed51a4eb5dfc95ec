-- ===== src/Headers/Tests.antt =====
-- The version header of an indexnode.
use fsfuse.Base.{none, ◌≡◌, ok, ◌++◌, length}
use fsfuse.Base.Bytes.{chars}
use fsfuse.Headers.{IndexnodeInfo, header_cb_wrapper}
use fsfuse.Headers.Ignored.{line_end, header_cb_wrapper_lem}

abbrev unset : IndexnodeInfo
unset = record { protocol = none; id = none }

header_cb_wrapper_lem_example :
    header_cb_wrapper (chars "fs2-version: 0.13" ++ line_end) unset
    ≡ ok (length (chars "fs2-version: 0.13" ++ line_end), unset)
header_cb_wrapper_lem_example = header_cb_wrapper_lem (chars "fs2-version: 0.13") unset
