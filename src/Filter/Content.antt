-- ===== src/Filter/Content.antt =====
-- proxy/masking_filter.go: `ContentFilter`, which puts the filters of a response together.
use lucid_gate.Prelude.{
  Bool, true, false, Option, none, some, List, [], ◌∷◌, ◌++◌, Bytes, String, ltb, if◌then◌else◌,
}
use lucid_gate.Filter.Injection.{InjectionStream}
use lucid_gate.Filter.Injection
use lucid_gate.Filter.HtmlText.{HtmlTextState, html_engine}
use lucid_gate.Filter.Magic.{Sniffer, MagicStream, new_stream}
use lucid_gate.Filter.Magic
use lucid_gate.Filter.Masking.{MaskingFilter, MaskingStream}
use lucid_gate.Filter.Masking
use lucid_gate.Filter.Substitution.{SubstitutionFilter, SubstitutionStream, has_rules, stream_of}
use lucid_gate.Filter.Substitution
use lucid_gate.Semantic.Automaton.{PhraseFilter}
use lucid_gate.Semantic.Stream.{PhraseStream, LogMatch, unmatched}
use lucid_gate.Semantic.Stream
use lucid_gate.Filter.Chain.{Answer, refused, passed, stopped, FilterEngine, chain_engine}

-- The filters that a chain is made of.
pub data StreamFilter : Type 0 where
  magic : MagicStream → StreamFilter
  phrase : PhraseStream → StreamFilter
  masking : MaskingStream → StreamFilter
  substitution : SubstitutionStream → StreamFilter
  injection : InjectionStream → StreamFilter
  text : HtmlTextState × PhraseStream → StreamFilter

abbrev answer_of : Bytes × Bool → Answer
answer_of (out, true) = stopped out
answer_of (out, false) = passed out

abbrev pub phrase_answer :
    PhraseStream → Option (PhraseStream × (Bytes × Bool)) → StreamFilter × Answer
phrase_answer f none = (phrase f, refused)
phrase_answer f (some (g, r)) = (phrase g, answer_of r)

abbrev passed_or_refused : Option Bytes → Answer
passed_or_refused none = refused
passed_or_refused (some out) = passed out

-- The engine of `phraseStreamFilter`, which has no `Flush`.
abbrev pub phrase_step :
    PhraseStream → Option (PhraseStream × (Bytes × Bool)) → PhraseStream × Answer
phrase_step f none = (f, refused)
phrase_step f (some (g, r)) = (g, answer_of r)

abbrev pub phrase_engine : FilterEngine PhraseStream
phrase_engine = record {
  process_chunk = λ f input. phrase_step f (Stream.process_chunk f input);
  flush = λ f. none;
  decision = Stream.decision;
  log_decision = Stream.log_decision;
}

unfoldable pub process_filter : Sniffer → StreamFilter → Bytes → StreamFilter × Answer
process_filter m (magic f) input =
    let r = Magic.process_chunk m f input in (magic r.0, answer_of r.1)
process_filter m (phrase f) input = phrase_answer f (Stream.process_chunk f input)
process_filter m (masking f) input =
    let r = Masking.process_chunk f input in (masking r.0, passed r.1)
process_filter m (substitution f) input =
    let r = Substitution.process_chunk f input in (substitution r.0, passed_or_refused r.1)
process_filter m (injection f) input =
    let r = Injection.process_chunk f input in (injection r.0, passed r.1)
process_filter m (text f) input =
    let r = (html_engine phrase_engine).process_chunk f input in (text r.0, r.1)

unfoldable pub flush_filter : Sniffer → StreamFilter → Option (StreamFilter × Option Bytes)
flush_filter m (magic f) = let r = Magic.flush m f in some (magic r.0, some r.1)
flush_filter m (phrase f) = none
flush_filter m (masking f) = let r = Masking.flush f in some (masking r.0, some r.1)
flush_filter m (injection f) = let r = Injection.flush f in some (injection r.0, some r.1)
flush_filter m (text f) = none
flush_filter m (substitution f) = let r = Substitution.flush f in some (substitution r.0, r.1)

abbrev filter_decision : StreamFilter → Option (String × Bytes)
filter_decision (magic f) = if f.blocked then some ("magic", f.blocked_mime) else none
filter_decision (phrase f) = Stream.decision f
filter_decision (masking f) = none
filter_decision (substitution f) = none
filter_decision (injection f) = none
filter_decision (text f) = (html_engine phrase_engine).decision f

abbrev filter_log_decision : StreamFilter → LogMatch
filter_log_decision (magic f) = unmatched
filter_log_decision (phrase f) = Stream.log_decision f
filter_log_decision (masking f) = unmatched
filter_log_decision (substitution f) = unmatched
filter_log_decision (injection f) = unmatched
filter_log_decision (text f) = (html_engine phrase_engine).log_decision f

abbrev pub stream_engine : Sniffer → FilterEngine StreamFilter
stream_engine m = record {
  process_chunk = process_filter m;
  flush = flush_filter m;
  decision = filter_decision;
  log_decision = filter_log_decision;
}

-- `magic` is the list of the blocked types, `html` the banner.
pub record ContentFilter : Type 0 where
  pub semantic : Option PhraseFilter
  pub log_semantic : Option PhraseFilter
  pub masking : Option MaskingFilter
  pub magic : Option (List Bytes)
  pub substitution : Option SubstitutionFilter
  pub html : Option Bytes

abbrev pub magic_part : Option (List Bytes) → List StreamFilter
magic_part none = []
magic_part (some []) = []
magic_part (some (t ∷ ts)) = magic (new_stream (t ∷ ts)) ∷ []

abbrev pub semantic_part : Option PhraseFilter → List StreamFilter
semantic_part none = []
semantic_part (some g) = phrase (Stream.new_filter g) ∷ []

abbrev pub log_part : Option PhraseFilter → List StreamFilter
log_part none = []
log_part (some g) = phrase (record (Stream.new_filter g) { observe_only = true }) ∷ []

abbrev pub masking_part : Option MaskingFilter → List StreamFilter
masking_part none = []
masking_part (some f) = if ltb 0 f.max_len then masking (Masking.new_filter f) ∷ [] else []

abbrev pub substitution_part : Option SubstitutionFilter → List StreamFilter
substitution_part none = []
substitution_part (some f) = if has_rules f then substitution (stream_of f) ∷ [] else []

-- The filters that `NewFilter` collects.
unfoldable pub filters_of : ContentFilter → List StreamFilter
filters_of f =
    magic_part f.magic
    ++ semantic_part f.semantic
    ++ log_part f.log_semantic
    ++ masking_part f.masking
    ++ substitution_part f.substitution

-- What `NewFilter` returns.
pub data ContentStream : Type 0 where
  pass_through : ContentStream
  single : StreamFilter → ContentStream
  chain : List StreamFilter → ContentStream

abbrev pub stream_for : List StreamFilter → ContentStream
stream_for [] = pass_through
stream_for (f ∷ []) = single f
stream_for (f ∷ (g ∷ fs)) = chain (f ∷ (g ∷ fs))

unfoldable pub new_filter : ContentFilter → ContentStream
new_filter f = stream_for (filters_of f)

abbrev single_answer : StreamFilter × Answer → ContentStream × Answer
single_answer (f, a) = (single f, a)

abbrev chain_answer : List StreamFilter × Answer → ContentStream × Answer
chain_answer (fs, a) = (chain fs, a)

abbrev pub single_flush :
    Option (StreamFilter × Option Bytes) → Option (ContentStream × Option Bytes)
single_flush none = none
single_flush (some (f, out)) = some (single f, out)

abbrev pub chain_flush :
    Option (List StreamFilter × Option Bytes) → Option (ContentStream × Option Bytes)
chain_flush none = none
chain_flush (some (fs, out)) = some (chain fs, out)

-- The calls of the methods through the interface.
unfoldable pub process_content : Sniffer → ContentStream → Bytes → ContentStream × Answer
process_content m pass_through input = (pass_through, passed input)
process_content m (single f) input = single_answer ((stream_engine m).process_chunk f input)
process_content m (chain fs) input =
    chain_answer ((chain_engine (stream_engine m)).process_chunk fs input)

unfoldable pub flush_content : Sniffer → ContentStream → Option (ContentStream × Option Bytes)
flush_content m pass_through = none
flush_content m (single f) = single_flush ((stream_engine m).flush f)
flush_content m (chain fs) = chain_flush ((chain_engine (stream_engine m)).flush fs)

abbrev pub content_engine : Sniffer → FilterEngine ContentStream
content_engine m = record {
  process_chunk = process_content m;
  flush = flush_content m;
  decision = λ f. elim f [
    | pass_through ↦ none
    | single g ↦ (stream_engine m).decision g
    | chain gs ↦ (chain_engine (stream_engine m)).decision gs
  ];
  log_decision = λ f. elim f [
    | pass_through ↦ unmatched
    | single g ↦ (stream_engine m).log_decision g
    | chain gs ↦ (chain_engine (stream_engine m)).log_decision gs
  ];
}
