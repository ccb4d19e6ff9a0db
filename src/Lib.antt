-- ===== src/Lib.antt =====
-- LucidGate, an HTTP(S) filtering proxy: the policy that decides about a request, the clients that are
-- admitted, the lists and rules that its configuration is loaded from, the stream filters that rewrite or
-- stop a body, the schedule of profiles, the cache of resolved names, and the pool of idle upstream
-- connections.
--
-- The program's parts. The lists of domains, URLs, phrases and clients are read from files
-- (list_loader.go), which one main file of rules names (rules.go); the time bands of the rules are taken
-- out of the windows of the profiles there. A client is admitted by its address
-- (proxy/access_rules.go), at the times of its profile (proxy/schedule_rules.go). A request's host is
-- asked of the domain lists (proxy/domain_rules.go); the policy (proxy/policy.go) asks them first, then
-- the rules on addresses, URLs, files, headers, cookies and referers. The bodies that the relay
-- (proxy/relay.go) passes on go chunk by chunk through a chain of filters, each with its own pending
-- bytes: proxy/magic_filter.go, proxy/semantic_filter.go (on pages under the text filter of
-- proxy/html_filter.go), proxy/masking_filter.go with the chain itself, proxy/substitution_filter.go,
-- proxy/html_injection_filter.go. Connections to servers are kept for reuse in proxy/upstream_pool.go,
-- and proxy/dns.go resolves their names.
--
-- Which file models which part.
-- - Text: Go's strings as lists of bytes. `strings.ToLower` and `strings.TrimSpace` go by Unicode's
--   tables, so they are the record `Unicode`, an argument of what uses them.
-- - Decision: `PolicyDecision` of proxy/policy.go and the regular expressions, whose engine is the
--   argument `Library`.
-- - Domain.Name: `normalizedDomain` and `normalizedDomainLabels`. Domain.Builder: `builderNode` and
--   the loop of `domainTrie.Add`. Domain.Flat: the flat arrays of `domainTrie.Compile`, the binary
--   search and the loop of `Match`. Domain.Trie: `Add`, `Compile`, `Match`, and `NewDomainMatcher` of
--   proxy/matchers.go. Domain.Rules: `NewDomainRulesConfig`, `isIPAddress`, `Decision`, `Blocked`.
--   The proofs are in Domain.Paths (insertion), Size, Layout and Build (the flat arrays hold the
--   tree), Search (the binary search), Matching (the loop), Listed (the list as a set of domains) and
--   Precedence (which list decides).
-- - Policy.Web: what the policy takes from Go's packages for the net; what goes by a standard of its
--   own is the record `Web`, an argument. Policy.Phrases, Headers (with the cookies), Rewrites,
--   Addresses, Files, Urls, Referers and Logging: the rule sets of proxy/policy.go with their
--   constructors and decisions. Policy.Evaluate: `NewPolicy`, `EvaluateRequest`, `EvaluateResponse`. The
--   proofs are in Policy.Verdict (the order of the rule sets), Lines (header lines), UrlPrecedence
--   and Guards (the host of a rewritten URL, the framing headers).
-- - Access.Rules: `AccessRules`; Access.Admission: who is admitted. The prefix table is the argument `Net`.
-- - Lists.Outcome, Lines, Parse, Loader, Includes: list_loader.go, over a file system that is an
--   argument. Lists.Targets (which list a file of rules adds to), Groups and RulePolicy: the loading of
--   rules.go. The proofs are in Lists.Includes (the includes come to an end), Cycles (of includes),
--   Blocked, Membership and RoundTrip. TimeBands.Bands, Intervals and Restriction: the time bands of
--   rules.go, with the array that `next` and `out` share in `subtractIntervals`; the proofs are in
--   TimeBands.Subtraction, Exactness, Weeks, Clocks, Windows and Opened.
-- - Filter.Fold, Filter.Masking: `maskingStreamFilter`; Filter.Masked and Filter.MaskingStream prove
--   what it puts out. Filter.Injection: `htmlInjectionStreamFilter`, with Filter.InjectionStream.
--   Filter.Magic: `magicStreamFilter`, with Filter.MagicStream. Filter.Substitution:
--   `multiSubstitutionStreamFilter`, with Filter.SubstitutionLength and Filter.SubstitutionFuel.
--   Filter.HtmlText: `htmlTextFilter`, with Filter.HtmlTextStream (chunks), HtmlTextSkip,
--   HtmlTextTags and HtmlTextElement (scripts and styles).
-- - Filter.Chain: `chainFilter` over any filters, given as the record `FilterEngine`, with
--   Filter.ChainPasses and ChainStreams. Filter.Content: `ContentFilter` over the filters above, with
--   Filter.ContentStreams.
-- - Relay.Response: of proxy/relay.go, `respFilter` for a `ContentFilter`, with Relay.Banner;
--   Relay.Inspect: its `InspectReader`, with Relay.Reading.
-- - Semantic.Automaton: the automaton of proxy/semantic_filter.go and its failure links;
--   Semantic.Stream: `phraseStreamFilter`; Semantic.Chunks: its runs over chunks. Why the automaton
--   finds the phrases: Semantic.Mark and Entries are what the phrases say of a text, Trie, Growth and
--   Holding are about the tree that `addPhrase` grows, Suffixes about the longest suffix of a text
--   in the tree, Rounds, Links, Children, Edges, Frontier, Breadth, Failures and Counts about
--   `buildFailures`, Marks about the marks it leaves; Search is a direct search for the phrases, Found
--   and Verdict compare it with the stream, and Phrases and Cutting are about a filter of phrases alone.
-- - Schedule.Rules: proxy/schedule_rules.go; Schedule.Opening proves when `Allowed` says yes.
-- - Upstream.Pool: `upstreamConnPool`; Upstream.Conservation counts connections over one call,
--   Upstream.Leases, Bounds and Closing are about every sequence of calls.
-- - Dns.Resolver: `DNSResolver` of proxy/dns.go; Dns.Freshness proves where its answers come from.
-- - Prelude: shared names, tests and list lemmas. Samples, SampleRules, SamplePolicy, SampleUnits,
--   SamplePhrases, SampleLists, SampleBands, SampleChain: runs at concrete inputs.
--
-- Numbers are natural numbers; the indices of the flat trie keep the wrap-around of uint32 (`u32`), the
-- scores of the phrases that of int32 (`i32`).
-- Fuel: the binary search gets one more than the number of children, and each round at least halves the
-- range; the loop of `Match` gets the length of the host, and each round cuts off a byte at least.
-- Running out of fuel and an index out of range both are the outer `none` there, which is proved not to
-- occur. The replacement of a literal gets one more than the bytes of the text, and each round cuts off
-- the literal, which is not empty. Masking goes on for as many rounds as there are bytes. The queue of the
-- failure links gets the number of nodes, each of which enters it once. Includes get one more than the
-- number of files, since a file that is open is not opened again. The flush of a chain gets the number of
-- its filters.
-- Maps are lists of keys or of pairs, with the first entry of a key in force. A run of a filter is its
-- chunks in turn and then its `Flush`. Each call on the pool holds its mutex, so it is one step.
--
-- Not modelled: the rest of the relay and the server, the audit scope, the LRU caches, the
-- configuration's defaults and the antivirus; sockets, TLS, HTTP parsing, logging, metrics and system
-- calls, which are I/O; third-party libraries (the prefix table bart, gobreaker, the rate limiter,
-- brotli).
mod Prelude
pub mod Text
pub mod Decision
pub mod Domain
pub mod Filter
pub mod Upstream
mod Samples
pub mod Schedule
mod SampleRules
pub mod Dns
pub mod Policy
pub mod Access
pub mod Semantic
pub mod Lists
pub mod TimeBands
pub mod Relay
mod SamplePolicy
mod SampleUnits
mod SamplePhrases
mod SampleBands
mod SampleLists
mod SampleChain
