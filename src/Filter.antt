-- ===== src/Filter.antt =====
-- The stream filters of the relay: proxy/masking_filter.go, proxy/html_injection_filter.go,
-- proxy/magic_filter.go, proxy/substitution_filter.go.
pub mod Fold
pub mod Injection
pub mod InjectionStream
pub mod Masking
pub mod Masked
pub mod MaskingStream
pub mod Magic
pub mod MagicStream
pub mod Substitution
pub mod SubstitutionLength
pub mod SubstitutionFuel
pub mod Chain
pub mod ChainPasses
pub mod ChainStreams
pub mod Content
pub mod ContentStreams
pub mod HtmlText
pub mod HtmlTextStream
pub mod HtmlTextSkip
pub mod HtmlTextTags
pub mod HtmlTextElement
