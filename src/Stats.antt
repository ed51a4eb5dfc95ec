-- ===== src/Stats.antt =====
-- src/parser/parser_stats.c and src/fuse_methods/statfs.c: the counts that indexnodes report, and their
-- sum.
pub mod Report
pub mod Statfs
mod Tests
use fsfuse.Base.{
  ℕ, zero, suc, ◌+◌, ◌-◌, ◌/◌, ◌%◌, ◌^◌, Bool, true, false, ◌&&◌, not, Option, none, some, List, [],
  ◌∷◌, ◌++◌, ltb, ◌==◌, if◌then◌else◌, length, Run, fault, ok, ◌>>=◌, or_fault,
}
use fsfuse.Base.Bytes.{Str, chars, str_eq}
use fsfuse.Parser.{
  Sax, Call, tag_start, text, tag_end, attribute, sax_calls, value_is, atoll, unsigned_long,
}

pub data StatsState : Type 0 where
  waiting_for_div_general waiting_for_span_with_id consuming_file_count consuming_total_size :
      StatsState

-- struct _parser_stats_t, with the calls of its callback: files and bytes.
pub record ParserStats : Type 0 where
  pub state : StatsState
  pub files : ℕ
  pub bytes : ℕ
  pub reports : List (ℕ × ℕ)

pub parser_stats_new : ParserStats
parser_stats_new = record { state = waiting_for_div_general; files = 0; bytes = 0; reports = [] }

unfoldable pub raise_cb_if_done : ParserStats → ParserStats
raise_cb_if_done p =
    if not (p.bytes == 0) && not (p.files == 0)
    then record p { reports = p.reports ++ ((p.files, p.bytes) ∷ []) }
    else p

-- The id of a div is compared without a test for NULL.
unfoldable pub before_general : Call → ParserStats → Run ParserStats
before_general c p = elim c.event [
  | tag_start ↦
      if str_eq c.name (chars "div")
      then (do
        value ← or_fault c.value
        ok (
            if str_eq value (chars "general")
            then record p { state = waiting_for_span_with_id }
            else p))
      else ok p
  | text ↦ ok p
  | tag_end ↦ ok p
  | attribute ↦ ok p
]

unfoldable pub before_span : Call → ParserStats → ParserStats
unfolding value_is
before_span c p = elim c.event [
  | tag_start ↦
      if str_eq c.name (chars "span")
      then if value_is (chars "file-count") c.value
        then record p { state = consuming_file_count }
        else if value_is (chars "total-size") c.value
        then record p { state = consuming_total_size }
        else p
      else p
  | text ↦ p
  | tag_end ↦ p
  | attribute ↦ p
]

-- An attribute of the name gives its value to `store`; any call ends the state.
unfoldable pub in_span : (ℕ → ParserStats → ParserStats) → Call → ParserStats → Run ParserStats
unfolding raise_cb_if_done
in_span store c p = elim c.event [
  | tag_start ↦ ok (record p { state = waiting_for_span_with_id })
  | text ↦ ok (record p { state = waiting_for_span_with_id })
  | tag_end ↦ ok (record p { state = waiting_for_span_with_id })
  | attribute ↦
      if str_eq c.name (chars "value")
      then (do
        value ← or_fault c.value
        let p1 = raise_cb_if_done (store (unsigned_long (atoll value)) p)
        ok (record p1 { state = waiting_for_span_with_id }))
      else ok (record p { state = waiting_for_span_with_id })
]

unfoldable pub stats_xml_cb : Call → ParserStats → Run ParserStats
unfolding before_general before_span in_span
stats_xml_cb c p = elim p.state [
  | waiting_for_div_general ↦ before_general c p
  | waiting_for_span_with_id ↦ ok (before_span c p)
  | consuming_file_count ↦ in_span (λ n q. record q { files = n }) c p
  | consuming_total_size ↦ in_span (λ n q. record q { bytes = n }) c p
]

unfoldable pub stats_calls : List Call → ParserStats → Run ParserStats
unfolding stats_xml_cb
stats_calls [] p = ok p
stats_calls (c ∷ cs) p = do p' ← stats_xml_cb c p; stats_calls cs p'

pub parser_stats_consume : List Sax → ParserStats → Run ParserStats
unfolding stats_calls
parser_stats_consume [] p = ok p
parser_stats_consume (x ∷ xs) p = do p' ← stats_calls (sax_calls x) p; parser_stats_consume xs p'

-- stats_ctxt_t
pub record StatsCtxt : Type 0 where
  pub f_files : ℕ
  pub bytes_total : ℕ
  pub cbs_remaining : ℕ

-- The context, none once it is freed, and the answers to the request: its files and blocks.
pub record Request : Type 0 where
  pub ctxt : Option StatsCtxt
  pub replies : List (ℕ × ℕ)

unfoldable pub add_report : ℕ → ℕ → StatsCtxt → StatsCtxt
add_report files bytes c = record {
  f_files = (c.f_files + files) % 2 ^ 64;
  bytes_total = (c.bytes_total + bytes) % 2 ^ 64;
  cbs_remaining = (c.cbs_remaining + (2 ^ 32 - 1)) % 2 ^ 32;
}

-- The last of the callbacks answers, and frees the context.
unfoldable pub answer_if_last : StatsCtxt → Request → Request
answer_if_last c r =
    if c.cbs_remaining == 0
    then record { ctxt = none; replies = r.replies ++ ((c.f_files, c.bytes_total / 512) ∷ []) }
    else record r { ctxt = some c }

unfoldable pub stats_cb : ℕ × ℕ → Request → Run Request
unfolding add_report answer_if_last
stats_cb report r = do c ← or_fault r.ctxt; ok (answer_if_last (add_report report.0 report.1 c) r)

-- The reports of one indexnode.
unfoldable pub tryget_stats : List (ℕ × ℕ) → Request → Run Request
unfolding stats_cb
tryget_stats [] r = ok r
tryget_stats (report ∷ reports) r = do r' ← stats_cb report r; tryget_stats reports r'

unfoldable pub each_indexnode : List (List (ℕ × ℕ)) → Request → Run Request
unfolding tryget_stats
each_indexnode [] r = ok r
each_indexnode (reports ∷ rest) r = do r' ← tryget_stats reports r; each_indexnode rest r'

-- `indexnodes` has what the parser reports for each. The first loop over them counts.
pub fsfuse_statfs : List (List (ℕ × ℕ)) → Run Request
unfolding each_indexnode
fsfuse_statfs indexnodes = each_indexnode indexnodes (record {
  ctxt = some (record { f_files = 0; bytes_total = 0; cbs_remaining = length indexnodes % 2 ^ 32 });
  replies = [];
})
