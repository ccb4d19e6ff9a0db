-- ===== src/Samples.antt =====
-- Runs of the model, and its theorems at concrete inputs.
use lucid_gate.Prelude.{
  ◌+◌, ◌^◌, ◌<◌, ◌≤◌, ◌≡◌, ◌≢◌, ◌↔◌, true, false, none, some, List, [], ◌∷◌, Bytes, codes, map,
  arith, refl, inl, inr,
}
use lucid_gate.Text.{
  Unicode, is_empty, ◌=ᵇ◌, contains_byte, last_index_byte, trim_suffix, trim_prefix, has_suffix,
  has_prefix,
}
use lucid_gate.Decision.{Library, ok, compile_rules}
use lucid_gate.Domain.Name.{normalized_domain, normalized_domain_labels, fields, pieces, non_empty}
use lucid_gate.Domain.Trie.{match, trie_of}
use lucid_gate.Domain.Builder.{insert_path, update_child}
use lucid_gate.Domain.Listed.{Listed, label_count, match_iff}
use lucid_gate.Domain.Rules.{
  DomainRulesConfig, DomainRules, new_domain_rules_config, normalized_tlds, decision,
}
use lucid_gate.Domain.Precedence.{IsSmall, Flags, Blocks, Bypasses, decision-Flags}
use lucid_gate.Filter.Fold.{lower_ascii, fold_loop, matches_at, ascii_equal_fold_bytes}
use lucid_gate.Filter.InjectionStream.{concat, inject_page, run-new_filter}
use lucid_gate.Filter.Injection
use lucid_gate.Filter.Masking.{normalize_phrase, new_masking_filter, asterisk, mask_pending}
use lucid_gate.Filter.Masking
use lucid_gate.Filter.Masked.{IsMasked, IsClean}
use lucid_gate.Filter.MaskingStream.{AreMaskable, run-new_masking_filter}
use lucid_gate.Filter.Magic.{Sniffer, new_stream}
use lucid_gate.Filter.Magic
use lucid_gate.Filter.MagicStream.{guarded, run-new_stream}
use lucid_gate.Domain.Builder.{BuilderNode, new_node}
use lucid_gate.Domain.Size.{size}
use lucid_gate.Domain.Layout.{Holds}
use lucid_gate.Domain.Flat.{build_flat}
use lucid_gate.Domain.Build.{build_flat-Holds}
use lucid_gate.Upstream.Pool.{
  PoolKey, new_pool, acquire, release, close_idle, conns, take_idle, newest_live, stack_of, delete,
  same_key, store,
}
use lucid_gate.Upstream.Conservation.{count, held, Acquired, acquire_conserves, release_conserves}
use lucid_gate.Upstream.Leases.{
  State, Reachable, here, after, acquires, releases, start, acquired, released, in_use-exclusive,
}
use lucid_gate.Upstream.Closing.{stack_in, close_idle-stack_in}
use lucid_gate.Upstream.Bounds.{IsBounded, pool-IsBounded}

-- Names of ASCII letters, without blanks around them.
abbrev pub ascii : Unicode
ascii = record { to_lower = λ s. map lower_ascii s; trim_space = λ s. s }

abbrev library : Library
library = record { unicode = ascii; compile_regex = λ p. none }

abbrev listed : List Bytes
listed = codes "Example.com" ∷ codes "ads.net." ∷ []

listed-small : label_count ascii listed < 2 ^ 32
unfolding normalized_domain_labels normalized_domain fields pieces non_empty trim_suffix trim_prefix
    has_prefix contains_byte last_index_byte lower_ascii has_suffix is_empty
listed-small = omega arith

match_iff_example :
    (((match ascii (trie_of ascii listed) (codes "www.ads.net")).1 ≡ some true)
      ↔ Listed ascii listed (codes "www.ads.net"))
    × (((match ascii (trie_of ascii listed) (codes "www.ads.net")).1 ≡ some false)
        ↔ (¬ Listed ascii listed (codes "www.ads.net")))
match_iff_example = match_iff ascii listed (codes "www.ads.net") listed-small

www-labels :
    normalized_domain_labels ascii (codes "www.ads.net")
    ≡ codes "www" ∷ normalized_domain_labels ascii (codes "ads.net.")
unfolding normalized_domain_labels normalized_domain fields pieces non_empty trim_suffix trim_prefix
    has_prefix contains_byte last_index_byte lower_ascii has_suffix is_empty
www-labels = refl

ads-labels : normalized_domain_labels ascii (codes "ads.net.") ≡ codes "ads" ∷ (codes "net" ∷ [])
unfolding normalized_domain_labels normalized_domain fields pieces non_empty trim_suffix trim_prefix
    has_prefix contains_byte last_index_byte lower_ascii has_suffix is_empty
ads-labels = refl

not_nil : (xs : List Bytes) (y : Bytes) (ys : List Bytes) → xs ≡ y ∷ ys → xs ≢ []
not_nil xs y ys h e = cc

below_listed : (match ascii (trie_of ascii listed) (codes "www.ads.net")).1 ≡ some true
below_listed =
    match_iff_example.0.1 (inr (inl (not_nil _ _ _ ads-labels, (codes "www" ∷ [], www-labels))))

abbrev config : DomainRulesConfig
config = record {
  local_exceptions = [];
  local_grey = codes "grey.ads.net" ∷ [];
  local_blocked = [];
  exceptions = codes "good.example.com" ∷ [];
  grey = [];
  blocked = listed;
  block_regex = [];
  allow_regex = [];
  allowed_tlds = [];
  blanket_block_tlds = codes "zip" ∷ [];
}

abbrev rules : DomainRules
rules = record {
  local_exceptions = trie_of ascii [];
  local_grey = trie_of ascii (codes "grey.ads.net" ∷ []);
  local_blocked = trie_of ascii [];
  exceptions = trie_of ascii (codes "good.example.com" ∷ []);
  grey = trie_of ascii [];
  blocked = trie_of ascii listed;
  block_regex = [];
  allow_regex = [];
  allowed_tlds = [];
  blanket_block_tlds = codes "zip" ∷ [];
}

rules-built : new_domain_rules_config library config ≡ ok rules
unfolding new_domain_rules_config compile_rules normalized_tlds lower_ascii
rules-built = refl

config-IsSmall : IsSmall ascii config
unfolding normalized_domain_labels normalized_domain fields pieces non_empty trim_suffix trim_prefix
    has_prefix contains_byte last_index_byte lower_ascii has_suffix is_empty
config-IsSmall = record {
  local_exceptions = omega arith;
  local_grey = omega arith;
  local_blocked = omega arith;
  exceptions = omega arith;
  grey = omega arith;
  blocked = omega arith;
}

host-named : is_empty (normalized_domain ascii (codes "CDN.good.example.com")) ≡ false
unfolding normalized_domain trim_suffix trim_prefix has_prefix contains_byte last_index_byte
    lower_ascii has_suffix is_empty
host-named = refl

decision-Flags_example :
    Flags
      (Blocks ascii config rules (normalized_domain ascii (codes "CDN.good.example.com")))
      (Bypasses ascii config rules (normalized_domain ascii (codes "CDN.good.example.com")))
      (decision ascii (some rules) (codes "CDN.good.example.com"))
decision-Flags_example =
    decision-Flags library config rules (codes "CDN.good.example.com") rules-built config-IsSmall
      host-named

abbrev page : List Bytes
page = codes "<body>hi</bo" ∷ codes "dy></html>" ∷ []

run-new_filter_example :
    Injection.run (Injection.new_filter (codes "<b>")) page
    ≡ inject_page (codes "<b>") (concat page)
run-new_filter_example = run-new_filter (codes "<b>") page (unfold is_empty in refl)

banner_placed :
    Injection.run (Injection.new_filter (codes "<b>")) page ≡ codes "<body>hi<b></body></html>"
unfolding Injection.run Injection.new_filter Injection.process_chunk Injection.flush
    Injection.inject_pending Injection.find_needle Injection.emit_pending is_empty matches_at
    ascii_equal_fold_bytes fold_loop lower_ascii
banner_placed = refl

abbrev pub phrases : List Bytes
phrases = codes "Bad" ∷ []

pub phrases-maskable : AreMaskable ascii phrases
unfolding normalize_phrase lower_ascii
phrases-maskable = ((ground arith, (ground arith, (ground arith, tt))), tt)

run-new_masking_filter_example :
    IsMasked (concat (codes "a bA" ∷ codes "D b" ∷ [])) (
      Masking.run
        (Masking.new_filter (new_masking_filter ascii phrases))
        (codes "a bA" ∷ codes "D b" ∷ []))
    × IsClean (new_masking_filter ascii phrases).phrases (
        Masking.run
          (Masking.new_filter (new_masking_filter ascii phrases))
          (codes "a bA" ∷ codes "D b" ∷ []))
run-new_masking_filter_example =
    run-new_masking_filter ascii phrases (codes "a bA" ∷ codes "D b" ∷ []) phrases-maskable

-- A sniffer that calls everything text.
abbrev pub sniffer : Sniffer
sniffer = record { unicode = ascii; detect_content_type = λ s. codes "text/plain; charset=utf-8" }

run-new_stream_example :
    Magic.run sniffer (new_stream (codes "executable/pe" ∷ [])) (codes "M" ∷ codes "Z.." ∷ [])
    ≡ guarded sniffer (codes "executable/pe" ∷ []) (codes "MZ..")
run-new_stream_example =
    run-new_stream sniffer (codes "executable/pe" ∷ []) (codes "M" ∷ codes "Z.." ∷ [])

abbrev two_levels : BuilderNode
two_levels = insert_path (codes "com" ∷ codes "example" ∷ []) new_node

two_levels-small : size two_levels ≤ 2 ^ 32
unfolding size insert_path update_child
two_levels-small = omega arith

build_flat-Holds_example :
    Holds 0 0 (build_flat two_levels (record { nodes = []; transitions = [] })).1 0 two_levels
build_flat-Holds_example = build_flat-Holds two_levels two_levels-small

abbrev key : PoolKey
key = record {
  scheme = codes "https";
  address = codes "example.com:443";
  server_name = codes "example.com";
  alpn = codes "http/1.1";
  spec_id = [];
}

-- A connection is dialed, used and put back, and taken out again.
abbrev dialed : State
dialed = acquired (start 2 90) (acquire (start 2 90).pool key 5 (some 7))

abbrev returned : State
returned = released dialed 7 (release dialed.pool key 7 (some 0) true 6)

abbrev reused : State
reused = acquired returned (acquire returned.pool key 10 none)

returned-Reachable : Reachable (start 2 90) returned
unfolding new_pool acquire take_idle newest_live stack_of release same_key ◌=ᵇ◌ store delete
returned-Reachable =
    after (after here (acquires (start 2 90) key 5 (some 7) refl))
      (releases dialed key 7 (some 0) true 6 (ground arith))

reused-Reachable : Reachable (start 2 90) reused
reused-Reachable = after returned-Reachable (acquires returned key 10 none tt)

reused-in_use : 0 < count 7 reused.in_use
unfolding new_pool acquire take_idle newest_live stack_of release same_key ◌=ᵇ◌ store delete
reused-in_use = ground arith

in_use-exclusive_example :
    (count 7 reused.in_use ≡ 1) × (held 7 reused.pool ≡ 0) × (count 7 reused.closed ≡ 0)
in_use-exclusive_example = in_use-exclusive 2 90 reused 7 reused-Reachable reused-in_use

pool-IsBounded_example : IsBounded 2 reused.pool
pool-IsBounded_example = pool-IsBounded 2 90 reused reused-Reachable

acquire_conserves_example :
    Acquired 7 (held 7 returned.pool) none (acquire returned.pool key 10 none)
acquire_conserves_example = acquire_conserves returned.pool key 10 none 7

release_conserves_example :
    held 7 (release dialed.pool key 7 (some 0) true 6).0
      + count 7 (release dialed.pool key 7 (some 0) true 6).1
    ≡ held 7 dialed.pool + count 7 (7 ∷ [])
release_conserves_example = release_conserves dialed.pool key 7 (some 0) true 6 7

close_idle-stack_in_example :
    ((0 < count 7 (close_idle returned.pool).1)
      ↔ ((k : PoolKey) × (0 < count 7 (conns (stack_in k returned.pool)))))
    × (count 7 (close_idle returned.pool).1 ≤ 1)
    × ((k : PoolKey) → stack_in k (close_idle returned.pool).0 ≡ [])
close_idle-stack_in_example = close_idle-stack_in 2 90 returned 7 returned-Reachable
