-- ===== src/SampleChain.antt =====
-- Runs of the chain of filters and of the text filter, and their theorems at concrete inputs.
use lucid_gate.Prelude.{
  ◌≡◌, inr, arith, false, true, none, some, List, [], ◌∷◌, ◌++◌, Bytes, codes, map, refl,
}
use lucid_gate.Samples.{ascii, sniffer, phrases, phrases-maskable}
use lucid_gate.SamplePhrases.{filter_of_bad}
use lucid_gate.Text.{has_prefix, index, is_empty, contains_byte, ◌=ᵇ◌, has_key, before_byte}
use lucid_gate.Filter.Fold.{lower_ascii, matches_at, ascii_equal_fold_bytes, fold_loop}
use lucid_gate.Filter.InjectionStream.{concat}
use lucid_gate.Filter.Masking.{
  new_masking_filter, mask_pending, mask_from, mask_phrases, add_phrases, normalize_phrase,
}
use lucid_gate.Filter.Masking
use lucid_gate.Filter.Masked.{IsMasked, IsClean}
use lucid_gate.Semantic.Automaton.{
  add_hard, add_phrase, add_bytes, child_of, append_node, put_node, put_next, build_failures,
  queue_root, link_queue, link_all, link, bytes_from,
}
use lucid_gate.Semantic.Stream.{match_chunk, match_bytes, match_byte}
use lucid_gate.Semantic.Stream
use lucid_gate.Filter.Substitution.{
  stream_of, apply_rules, apply_literals, apply_regexes, replace_literal, window_of, widest_regex,
  widest_literal,
}
use lucid_gate.Filter.Substitution
use lucid_gate.Filter.Chain.{
  passed, stopped, deliver, chain_engine, process_all, run_downstream, process_downstream,
  append_tails,
}
use lucid_gate.Filter.ChainPasses.{Effect, Composed}
use lucid_gate.Filter.ChainStreams.{deliver-chain_engine}
use lucid_gate.Filter.Content.{
  StreamFilter, phrase, masking, substitution, process_filter, flush_filter, stream_engine,
  content_engine, new_filter,
}
use lucid_gate.Filter.ContentStreams.{
  masked_by, masking-Streams, masks_and_logs, deliver-new_filter,
}
use lucid_gate.SamplePolicy.{web}
use lucid_gate.Policy.Web.{Request}
use lucid_gate.Relay.Response.{
  is_filter_mutable_response_type, is_mutable_content_type, is_structured_stream_content_type,
  is_script_or_style_content_type, is_html_content_type, media_type, should_inject_html_banner,
  resp_filter,
}
use lucid_gate.Relay.Banner.{bannered, page_with_banner, deliver-resp_filter}
use lucid_gate.Relay.Inspect.{
  new_inspect_reader, eof, flush_engine, filter_read, read_end, fill, read,
}
use lucid_gate.Relay.Reading.{source_of, Gives, read_times, read_times-Gives}
use lucid_gate.Filter.HtmlText.{
  new_html_text_filter, closing, process_bytes, html_engine, show_byte, consume_byte, start_tag,
  consume_tag, finish_tag, is_html_space, consume_skipped_content, consume_comment,
}
use lucid_gate.Filter.HtmlTextStream.{IsFront, deliver-html_engine}
use lucid_gate.Filter.HtmlTextSkip.{Lacks}
use lucid_gate.Filter.HtmlTextTags.{
  script, Attributes, none_left, bare, quoted, Opens, with_attributes,
}
use lucid_gate.Filter.HtmlTextElement.{recorder, given_inner, given_inner-element}

abbrev masks : StreamFilter
masks = masking (Masking.new_filter (new_masking_filter ascii phrases))

abbrev effect : Effect
effect = masked_by ascii phrases

abbrev page : List Bytes
page = codes "a bA" ∷ codes "D b" ∷ []

deliver-chain_engine_example :
    (out : Bytes) × (deliver (chain_engine (stream_engine sniffer)) (masks ∷ masks ∷ []) page
      ≡ passed out)
    × Composed (effect ∷ effect ∷ []) (concat page) out
deliver-chain_engine_example =
    deliver-chain_engine (stream_engine sniffer) (masks ∷ masks ∷ []) (effect ∷ effect ∷ []) page (
      masking-Streams sniffer ascii phrases phrases-maskable,
      (masking-Streams sniffer ascii phrases phrases-maskable, tt),
    )

deliver-new_filter_example :
    (out : Bytes) × (deliver
        (content_engine sniffer)
        (new_filter (masks_and_logs ascii (some filter_of_bad) phrases))
        page
      ≡ passed out)
    × IsMasked (concat page) out
    × IsClean (new_masking_filter ascii phrases).phrases out
deliver-new_filter_example =
    deliver-new_filter sniffer ascii (some filter_of_bad) phrases page phrases-maskable

abbrev marked_page : List Bytes
marked_page = codes "<b>a" ∷ codes "<script>x</scRipt>b" ∷ []

deliver-html_engine_example :
    (deliver (html_engine recorder) (new_html_text_filter, []) marked_page
      ≡ (process_bytes recorder
          (concat marked_page)
          (new_html_text_filter, [])
          (concat marked_page)
          0).1)
    × IsFront
        (concat marked_page)
        (deliver (html_engine recorder) (new_html_text_filter, []) marked_page)
deliver-html_engine_example = deliver-html_engine recorder (new_html_text_filter, []) marked_page

body-Lacks : Lacks (closing (codes "script")) (map lower_ascii (codes "a</scr"))
unfolding lower_ascii has_prefix
body-Lacks = (refl, (refl, (refl, (refl, (refl, (refl, tt))))))

close-closing : map lower_ascii (codes "</Script>") ≡ closing (codes "script")
unfolding lower_ascii
close-closing = refl

quoted_bracket : Attributes (codes "t='>'")
quoted_bracket = bare 116 (codes "='>'") (omega arith) (omega arith) (omega arith) (
    bare 61 (codes "'>'") (omega arith) (omega arith) (omega arith)
      (quoted 39 (codes ">") [] (inr refl) (omega arith, tt) none_left))

script-Opens : Opens (codes "script") (codes "<Script t='>'>")
unfolding lower_ascii is_html_space contains_byte
script-Opens = with_attributes (codes "Script") 32 (codes "t='>'") refl refl quoted_bracket

given_inner-element_example :
    given_inner (codes "<Script t='>'>" ++ (codes "a</scr" ++ (codes "</Script>" ++ codes "text")))
    ≡ given_inner (codes "text")
given_inner-element_example =
    given_inner-element (codes "script") (codes "<Script t='>'>") (codes "a</scr")
      (codes "</Script>") (codes "text") script script-Opens body-Lacks close-closing

-- A chain that blocks: the bytes that masking held back come out in front of those that the
-- substitution held back, though they stand behind them in the response.
abbrev blocking_chain : List StreamFilter
blocking_chain =
    phrase (Stream.new_filter filter_of_bad)
    ∷ masking (Masking.new_filter (new_masking_filter ascii (codes "ugly" ∷ [])))
    ∷ substitution (
        stream_of (record {
          rules = record { search = codes "cat"; replace = codes "dog" } ∷ [];
          regex_rules = [];
          length_preserved = false;
        }))
    ∷ []

tails_out_of_order :
    deliver (chain_engine (stream_engine sniffer)) blocking_chain (codes "abcdefbad" ∷ [])
    ≡ stopped (codes "abcbaddef")
unfolding deliver process_all run_downstream process_downstream append_tails process_filter
    flush_filter is_empty has_prefix index lower_ascii matches_at ascii_equal_fold_bytes fold_loop
    Masking.process_chunk Masking.flush Masking.new_filter mask_pending mask_from mask_phrases
    new_masking_filter add_phrases normalize_phrase Substitution.process_chunk Substitution.flush
    apply_rules apply_literals apply_regexes replace_literal window_of widest_regex widest_literal
    Stream.new_filter Stream.process_chunk match_chunk match_bytes match_byte build_failures
    queue_root link_queue link_all link bytes_from add_hard add_phrase add_bytes child_of
    append_node put_node put_next
tails_out_of_order = refl

-- A closing tag with a blank in it does not end a script, so the rest of the page is not shown.
blank_in_closing_tag : given_inner (codes "<script></script >bad") ≡ []
unfolding process_bytes show_byte consume_byte start_tag consume_tag finish_tag is_html_space
    consume_skipped_content is_empty lower_ascii contains_byte ◌=ᵇ◌
blank_in_closing_tag = refl

-- A `>` in a comment ends it, so the rest of the comment is shown.
bracket_in_comment : given_inner (codes "<!-- a>b -->") ≡ codes "b -->"
unfolding process_bytes show_byte consume_byte start_tag consume_tag consume_comment is_empty
bracket_in_comment = refl

read_times-Gives_example :
    Gives
      (stream_engine sniffer)
      2
      (new_inspect_reader (source_of page) masks)
      (deliver (stream_engine sniffer) masks page)
read_times-Gives_example =
    read_times-Gives (stream_engine sniffer) 2 page masks ((λ e. cc), ((λ e. cc), tt)) (omega arith)

page_read :
    read_times (stream_engine sniffer) 2 5 (new_inspect_reader (source_of page) masks)
    ≡ (codes "a *** b", eof)
unfolding read_times read fill read_end flush_engine filter_read process_filter flush_filter
    is_empty lower_ascii matches_at ascii_equal_fold_bytes fold_loop Masking.process_chunk
    Masking.flush Masking.new_filter mask_pending mask_from mask_phrases new_masking_filter
    add_phrases normalize_phrase
page_read = refl

abbrev page_request : Request
page_request = record { url = none; host = codes "example.com"; header = [] }

page_mutable : is_filter_mutable_response_type web.unicode (codes "text/html; charset=utf-8") ≡ true
unfolding is_filter_mutable_response_type is_mutable_content_type is_structured_stream_content_type
    is_script_or_style_content_type media_type is_empty has_prefix has_key before_byte ◌=ᵇ◌
    lower_ascii
page_mutable = refl

page_html : is_html_content_type web.unicode (codes "text/html; charset=utf-8") ≡ true
unfolding is_html_content_type media_type has_key before_byte ◌=ᵇ◌ lower_ascii
page_html = refl

deliver-resp_filter_example :
    deliver
      (content_engine sniffer)
      (resp_filter web
        (bannered (some filter_of_bad) none (codes "hello"))
        (codes "text/html; charset=utf-8")
        (some page_request))
      (codes "<p>bad</bo" ∷ codes "dy>" ∷ [])
    ≡ passed (
        page_with_banner
          (should_inject_html_banner web (some page_request))
          (codes "hello")
          (codes "<p>bad</body>"))
deliver-resp_filter_example =
    deliver-resp_filter sniffer web (some filter_of_bad) none (codes "hello")
      (codes "text/html; charset=utf-8") (some page_request) (codes "<p>bad</bo" ∷ codes "dy>" ∷ [])
      page_mutable page_html
