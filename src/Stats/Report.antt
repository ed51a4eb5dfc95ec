-- ===== src/Stats/Report.antt =====
-- What src/parser/parser_stats.c reports of the page of an indexnode.
use fsfuse.Base.{
  ℕ, ◌≡◌, refl, inl, inr, none, List, [], ◌∷◌, ◌==◌, if◌then◌else◌, Bool-cases, ok, fault,
}
use fsfuse.Base.Bytes.{Str, chars, str_eq}
use fsfuse.Parser.{
  Sax, start_element, sax_calls, on_start_element_ns, id_of, attribute_calls, value_is, atoll,
  unsigned_long,
}
use fsfuse.Stats.{
  parser_stats_new, StatsState, waiting_for_span_with_id, consuming_total_size,
  parser_stats_consume, stats_calls, stats_xml_cb, before_general, before_span, in_span,
  raise_cb_if_done,
}

-- A span with an id and a value.
pub span : Str → Str → Sax
span id value = start_element (chars "span") ((chars "id", id) ∷ (chars "value", value) ∷ [])

pub general : Sax
general = start_element (chars "div") ((chars "id", chars "general") ∷ [])

pub counted : Str → ℕ
counted value = unsigned_long (atoll value)

-- One report, unless one of the numbers is 0.
pub reported : ℕ → ℕ → List (ℕ × ℕ)
reported files bytes = if files == 0 then [] else if bytes == 0 then [] else (files, bytes) ∷ []

raised :
    (state : StatsState) (files bytes : ℕ)
    → raise_cb_if_done (record { state = state; files = files; bytes = bytes; reports = [] })
      ≡ record { state = state; files = files; bytes = bytes; reports = reported files bytes }
unfolding raise_cb_if_done reported
raised state files bytes = elim (Bool-cases (bytes == 0)) [
  | inl b ↦ elim (Bool-cases (files == 0)) [ inl f ↦ rw (b, f) refl | inr f ↦ rw (b, f) refl ]
  | inr b ↦ elim (Bool-cases (files == 0)) [ inl f ↦ rw (b, f) refl | inr f ↦ rw (b, f) refl ]
]

-- A div without an id before the one of the counts makes the parser compare NULL.
pub parser_stats_consume_faults :
    (attrs : List (Str × Str)) (rest : List Sax)
    → id_of none attrs ≡ none
    → parser_stats_consume (start_element (chars "div") attrs ∷ rest) parser_stats_new ≡ fault
unfolding parser_stats_consume parser_stats_new sax_calls on_start_element_ns stats_calls
    stats_xml_cb before_general str_eq
parser_stats_consume_faults attrs rest e = rw e refl

-- Of a page with both counts a new parser reports them once, or not at all where one of them is 0.
pub parser_stats_consume-reported :
    (files bytes : Str)
    → parser_stats_consume
        (general ∷ span (chars "file-count") files ∷ span (chars "total-size") bytes ∷ [])
        parser_stats_new
      ≡ ok (record {
        state = waiting_for_span_with_id;
        files = counted files;
        bytes = counted bytes;
        reports = reported (counted files) (counted bytes);
      })
unfolding parser_stats_consume parser_stats_new sax_calls on_start_element_ns stats_calls
    stats_xml_cb before_general before_span in_span str_eq general span counted id_of
    attribute_calls value_is
parser_stats_consume-reported files bytes =
    rw (raised consuming_total_size (counted files) (counted bytes)) refl
