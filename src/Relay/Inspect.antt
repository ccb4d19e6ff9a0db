-- ===== src/Relay/Inspect.antt =====
-- proxy/relay.go: `InspectReader`, which filters a body while it is read.
use lucid_gate.Prelude.{
  ℕ, Bool, true, false, Option, none, some, List, [], ◌∷◌, Bytes, if◌then◌else◌, take, drop,
}
use lucid_gate.Text.{is_empty}
use lucid_gate.Filter.Chain.{Answer, refused, passed, stopped, FilterEngine}

-- The error that a `Read` of the source returns: none, `io.EOF`, or another one.
pub data Ending : Type 0 where
  more at_end broken : Ending

-- The reads of the source that are to come; after the last one it is at its end.
abbrev pub Source : Type 0
Source = List (Bytes × Ending)

pub record InspectReader (F : Type 0) : Type 0 where
  pub src : Source
  pub engine : F
  pub out : Bytes
  pub blocked : Bool
  pub flushed : Bool

-- What the loop of `Read` ends with: bytes in `out`, `io.EOF`, or another error.
pub data Status : Type 0 where
  ready ended failed : Status

pub data ReadResult : Type 0 where
  chunk : Bytes → ReadResult
  eof error : ReadResult

-- `newInspectReader`.
abbrev pub new_inspect_reader : {F : Type 0} → Source → F → InspectReader F
new_inspect_reader src f = record {
  src = src;
  engine = f;
  out = [];
  blocked = false;
  flushed = false;
}

module _ {F : Type 0} (e : FilterEngine F) where
  abbrev pub after_flush : InspectReader F → Option (F × Option Bytes) → InspectReader F × Bool
  after_flush r none = (record r { flushed = true }, true)
  after_flush r (some (g, none)) = (record r { engine = g; flushed = true }, false)
  after_flush r (some (g, some tail)) = (record r { engine = g; out = tail; flushed = true }, true)

  -- `flushEngine`, and whether it had no error.
  unfoldable pub flush_engine : InspectReader F → InspectReader F × Bool
  flush_engine r = if r.flushed then (r, true) else after_flush r (e.flush r.engine)

  abbrev pub after_filter : InspectReader F → F × Answer → InspectReader F × Bool
  after_filter r (g, refused) = (record r { engine = g; blocked = false }, false)
  after_filter r (g, passed out) = (record r { engine = g; out = out; blocked = false }, true)
  after_filter r (g, stopped out) = (record r { engine = g; out = out; blocked = true }, true)

  -- The bytes of a read through the filter, if there are any.
  unfoldable pub filter_read : InspectReader F → Bytes → InspectReader F × Bool
  filter_read r c = if is_empty c then (r, true) else after_filter r (e.process_chunk r.engine c)

  abbrev pub after_end : InspectReader F × Bool → InspectReader F × Status
  after_end (r, false) = (r, failed)
  after_end (r, true) = (r, if is_empty r.out then ended else ready)

  -- The source is at its end.
  unfoldable pub read_end : InspectReader F → InspectReader F × Status
  read_end r = if is_empty r.out then after_end (flush_engine r) else (r, ready)

  abbrev pub after_read :
      InspectReader F × Bool → Ending → InspectReader F × Status → InspectReader F × Status
  after_read (r, false) ending rest = (r, failed)
  after_read (r, true) more rest = rest
  after_read (r, true) at_end rest = read_end r
  after_read (r, true) broken rest = (r, failed)

  abbrev pub unless_ready : InspectReader F → InspectReader F × Status → InspectReader F × Status
  unless_ready r rest =
      if is_empty r.out then if r.blocked then (r, ended) else rest else (r, ready)

  -- The loop of `Read`, over what is left of the source.
  unfoldable pub fill : Source → InspectReader F → InspectReader F × Status
  fill [] r = unless_ready r (read_end r)
  fill ((c, ending) ∷ src) r =
      let next = filter_read (record r { src = src }) c in
      unless_ready r (after_read next ending (fill src next.0))

  abbrev pub copied : ℕ → InspectReader F × Status → InspectReader F × ReadResult
  copied n (r, ready) = (record r { out = drop n r.out }, chunk (take n r.out))
  copied n (r, ended) = (r, eof)
  copied n (r, failed) = (r, error)

  -- `Read`, for a buffer of `n` bytes.
  unfoldable pub read : ℕ → InspectReader F → InspectReader F × ReadResult
  read n r = copied n (fill r.src r)
