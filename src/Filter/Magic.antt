-- ===== src/Filter/Magic.antt =====
-- proxy/magic_filter.go: a response is held back until its real type is known, and blocked by it.
use lucid_gate.Prelude.{
  ℕ, ◌-◌, Bool, true, false, ◌||◌, List, [], ◌∷◌, ◌++◌, Bytes, codes, ltb, leb, if◌then◌else◌,
  length, take, drop,
}
use lucid_gate.Text.{Unicode, is_empty, has_prefix, has_key, before_byte}

-- `http.DetectContentType` is a parameter.
pub record Sniffer : Type 0 where
  pub unicode : Unicode
  pub open unicode use *
  pub detect_content_type : Bytes → Bytes

-- `magicSniffLen`.
abbrev pub sniff_len : ℕ
sniff_len = 512

abbrev semicolon : ℕ
semicolon = b';'

-- One entry of the list of `NewMagicFilter`, normalised.
unfoldable pub blocked_type : Unicode → Bytes → Bytes
blocked_type u raw =
    let mt = u.to_lower (u.trim_space raw) in
    let cut = before_byte mt semicolon in
    if leb (length mt) (length cut) then mt else u.trim_space cut

-- The keys of the set of `NewMagicFilter`.
unfoldable pub blocked_types : Unicode → List Bytes → List Bytes
blocked_types u [] = []
blocked_types u (raw ∷ raws) =
    let mt = blocked_type u raw in
    let rest = blocked_types u raws in if is_empty mt then rest else mt ∷ rest

unfoldable pub detect_magic_type : Sniffer → Bytes → Bytes
detect_magic_type m s =
    if has_prefix s (127 ∷ codes "ELF")
    then codes "executable/elf"
    else if has_prefix s (codes "MZ")
    then codes "executable/pe"
    else if has_prefix s (254 ∷ 237 ∷ 250 ∷ 206 ∷ []) || has_prefix s (254 ∷ 237 ∷ 250 ∷ 207 ∷ [])
    then codes "executable/mach"
    else if has_prefix s (206 ∷ 250 ∷ 237 ∷ 254 ∷ []) || has_prefix s (207 ∷ 250 ∷ 237 ∷ 254 ∷ [])
    then codes "executable/mach"
    else if has_prefix s (202 ∷ 254 ∷ 186 ∷ 190 ∷ [])
    then codes "executable/mach"
    else if has_prefix s (codes "#!")
    then codes "executable/script"
    else m.to_lower (m.trim_space (before_byte (m.detect_content_type s) semicolon))

-- `magicStreamFilter`.
pub record MagicStream : Type 0 where
  pub blocked_list : List Bytes
  pub pending : Bytes
  pub decided : Bool
  pub blocked : Bool
  pub blocked_mime : Bytes

-- The stream of `NewFilter`, for a list of types that is not empty.
unfoldable pub new_stream : List Bytes → MagicStream
new_stream types = record {
  blocked_list = types;
  pending = [];
  decided = false;
  blocked = false;
  blocked_mime = [];
}

-- `commitDecision`: the output, and whether the response is blocked.
unfoldable pub commit_decision : Sniffer → MagicStream → Bytes → MagicStream × (Bytes × Bool)
commit_decision m f tail =
    let mime = detect_magic_type m f.pending in
    if has_key f.blocked_list mime
    then (
      record f { decided = true; blocked = true; blocked_mime = mime; pending = [] },
      ([], true),
    )
    else (record f { decided = true; pending = [] }, (f.pending ++ tail, false))

abbrev pub collect : Sniffer → MagicStream → Bytes → MagicStream × (Bytes × Bool)
collect m f tail =
    if ltb (length f.pending) sniff_len then (f, ([], false)) else commit_decision m f tail

unfoldable pub process_chunk : Sniffer → MagicStream → Bytes → MagicStream × (Bytes × Bool)
process_chunk m f input =
    let need = sniff_len - length f.pending in
    if f.blocked
    then (f, ([], true))
    else if f.decided
    then (f, (input, false))
    else if is_empty input
    then (f, ([], false))
    else collect m (record f { pending = f.pending ++ take need input }) (drop need input)

unfoldable pub flush : Sniffer → MagicStream → MagicStream × Bytes
flush m f =
    if f.blocked || f.decided
    then (f, [])
    else ((commit_decision m f []).0, (commit_decision m f []).1.0)

-- The chunks in turn, then `Flush`.
unfoldable pub run : Sniffer → MagicStream → List Bytes → Bytes
run m f [] = (flush m f).1
run m f (c ∷ cs) = (process_chunk m f c).1.0 ++ run m (process_chunk m f c).0 cs
