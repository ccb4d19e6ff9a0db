-- ===== src/Relay/Reading.antt =====
-- A body that is read to its end through the inspecting reader.
use lucid_gate.Prelude.{
  ℕ, zero, suc, ◌≡◌, ◌≢◌, ◌≤◌, ◌<◌, true, false, Option, none, some, List, [], ◌∷◌, ◌++◌, Bytes,
  length, take, drop, map, All, arith, refl, sym, subst, ap, ◌∙◌, append_assoc, append-nil,
  take-append-drop, length-drop,
}
use lucid_gate.Text.{is_empty}
use lucid_gate.Filter.Chain.{
  Answer, refused, passed, stopped, FilterEngine, after_output, last_output, answered, deliver,
}
use lucid_gate.Relay.Inspect.{
  more, Source, InspectReader, ReadResult, chunk, eof, error, new_inspect_reader, flush_engine,
  filter_read, after_filter, read_end, fill, read, copied, after_end, after_flush, after_read,
}

-- Reads that give these chunks, and then the end.
abbrev pub source_of : List Bytes → Source
source_of cs = map (λ c. (c, more)) cs

module _ {F : Type 0} (e : FilterEngine F) (n : ℕ) where
  -- A result of `Read` in front of those of the reads after it, if there are any.
  abbrev proceed : ReadResult → Bytes × ReadResult → Bytes × ReadResult
  proceed (chunk c) (out, r) = (c ++ out, r)
  proceed eof later = ([], eof)
  proceed error later = ([], error)

  -- At most so many reads after each other, up to the end or an error: what they gave, and the last result.
  unfoldable pub read_times : ℕ → InspectReader F → Bytes × ReadResult
  read_times zero r = ([], chunk [])
  read_times (suc k) r = let (next, result) = read e n r in proceed result (read_times k next)

  -- Some number of reads gives these bytes and then this result.
  abbrev pub Ends : InspectReader F → Bytes → ReadResult → Type 0
  Ends r out result = (k : ℕ) × (read_times (suc k) r ≡ (out, result))

  Ends-same :
      (r s : InspectReader F) (out : Bytes) (result : ReadResult)
      → read e n r ≡ read e n s
      → Ends s out result
      → Ends r out result
  unfolding read_times
  Ends-same r s out result h (k, eq) = (k, ap (λ p. proceed p.1 (read_times k p.0)) h ∙ eq)

  Ends-chunk :
      (r s : InspectReader F) (c out : Bytes) (result : ReadResult)
      → read e n r ≡ (s, chunk c)
      → Ends s out result
      → Ends r (c ++ out) result
  unfolding read_times
  Ends-chunk r s c out result h (k, eq) =
      (suc k, ap (λ p. proceed p.1 (read_times (suc k) p.0)) h ∙ ap (λ p. proceed (chunk c) p) eq)

  Ends-eof : (r s : InspectReader F) → read e n r ≡ (s, eof) → Ends r [] eof
  unfolding read_times
  Ends-eof r s h = (0, ap (λ p. proceed p.1 (read_times 0 p.0)) h)

  Ends-error : (r s : InspectReader F) → read e n r ≡ (s, error) → Ends r [] error
  unfolding read_times
  Ends-error r s h = (0, ap (λ p. proceed p.1 (read_times 0 p.0)) h)

  abbrev holding : InspectReader F → Bytes → InspectReader F
  holding r x = record r { out = x }

  read-ready :
      (src : Source) (r : InspectReader F) (c : ℕ) (x : Bytes)
      → read e n (record r { src = src; out = c ∷ x })
        ≡ (record r { src = src; out = drop n (c ∷ x) }, chunk (take n (c ∷ x)))
  unfolding read fill is_empty
  read-ready [] r c x = refl
  read-ready ((d, ending) ∷ src) r c x = refl

  read-blocked :
      (src : Source) (r : InspectReader F)
      → read e n (record r { src = src; out = []; blocked = true })
        ≡ (record r { src = src; out = []; blocked = true }, eof)
  unfolding read fill is_empty
  read-blocked [] r = refl
  read-blocked ((d, ending) ∷ src) r = refl

  -- What is held is read in pieces.
  Ends-holding :
      (fuel : ℕ) (src : Source) (r : InspectReader F) (x out : Bytes) (result : ReadResult)
      → 0 < n
      → length x ≤ fuel
      → Ends (record r { src = src; out = [] }) out result
      → Ends (record r { src = src; out = x }) (x ++ out) result
  Ends-holding fuel src r [] out result p le h = h
  Ends-holding zero src r (c ∷ x) out result p le h = absurd (omega arith)
  Ends-holding (suc fuel) src r (c ∷ x) out result p le h =
      subst (λ o. Ends (record r { src = src; out = c ∷ x }) o result)
        (sym (append_assoc (take n (c ∷ x)) (drop n (c ∷ x)) out)
          ∙ ap (λ o. o ++ out) (take-append-drop n (c ∷ x)))
        (Ends-chunk _ _ (take n (c ∷ x)) (drop n (c ∷ x) ++ out) result (read-ready src r c x) (
          Ends-holding fuel src r (drop n (c ∷ x)) out result p
            (omega (arith, length-drop n (c ∷ x))) h))

  -- What a delivery says of the reads.
  abbrev pub Gives : InspectReader F → Answer → Type 0
  Gives r refused = (out : Bytes) × Ends r out error
  Gives r (passed out) = Ends r out eof
  Gives r (stopped out) = Ends r out eof

  Gives-holding :
      (src : Source) (r : InspectReader F) (x : Bytes) (a : Answer)
      → 0 < n
      → Gives (record r { src = src; out = [] }) a
      → Gives (record r { src = src; out = x }) (after_output x a)
  Gives-holding src r x refused p (out, h) =
      (x ++ out, Ends-holding (length x) src r x out error p (omega arith) h)
  Gives-holding src r x (passed out) p h = Ends-holding (length x) src r x out eof p (omega arith) h
  Gives-holding src r x (stopped out) p h =
      Ends-holding (length x) src r x out eof p (omega arith) h

  Gives-same :
      (r s : InspectReader F) (a : Answer) → read e n r ≡ read e n s → Gives s a → Gives r a
  Gives-same r s refused h (out, g) = (out, Ends-same r s out error h g)
  Gives-same r s (passed out) h g = Ends-same r s out eof h g
  Gives-same r s (stopped out) h g = Ends-same r s out eof h g

  -- What is held, and nothing after it.
  Ends-last :
      (src : Source) (r : InspectReader F) (x : Bytes)
      → 0 < n
      → Ends (record r { src = src; out = [] }) [] eof
      → Ends (record r { src = src; out = x }) x eof
  Ends-last src r x p h =
      subst (λ o. Ends (record r { src = src; out = x }) o eof) (append-nil x)
        (Ends-holding (length x) src r x [] eof p (omega arith) h)

  read-flush :
      (f : F) (o : Option (F × Option Bytes))
      → e.flush f ≡ o
      → read e n (new_inspect_reader [] f)
        ≡ copied e n (after_end e (after_flush e (new_inspect_reader [] f) o))
  unfolding read fill read_end flush_engine is_empty
  read-flush f o h =
      ap (λ o. copied e n (after_end e (after_flush e (new_inspect_reader [] f) o))) h

  abbrev flushed_with : F → Bytes → InspectReader F
  flushed_with g x = record { src = []; engine = g; out = x; blocked = false; flushed = true }

  read-flushed : (g : F) → read e n (flushed_with g []) ≡ (flushed_with g [], eof)
  unfolding read fill read_end flush_engine is_empty
  read-flushed g = refl

  -- The source is at its end, and nothing is held: the flush.
  by_flush :
      (f : F) (o : Option (F × Option Bytes))
      → e.flush f ≡ o
      → 0 < n
      → Gives (new_inspect_reader [] f) (last_output o)
  unfolding is_empty
  by_flush f none h p = Ends-eof _ _ (read-flush f none h)
  by_flush f (some (g, none)) h p = ([], Ends-error _ _ (read-flush f (some (g, none)) h))
  by_flush f (some (g, some [])) h p = Ends-eof _ _ (read-flush f (some (g, some [])) h)
  by_flush f (some (g, some (c ∷ s))) h p =
      Ends-same _ (flushed_with g (c ∷ s)) (c ∷ s) eof
        (read-flush f (some (g, some (c ∷ s))) h ∙ sym (read-ready [] (flushed_with g []) c s))
        (Ends-last [] (flushed_with g []) (c ∷ s) p (Ends-eof _ _ (read-flushed g)))

  read-filter :
      (cs : List Bytes) (f : F) (c : ℕ) (s : Bytes) (p : F × Answer)
      → e.process_chunk f (c ∷ s) ≡ p
      → read e n (new_inspect_reader (source_of ((c ∷ s) ∷ cs)) f)
        ≡ copied e n (
            after_read e
              (after_filter e (new_inspect_reader (source_of cs) f) p)
              more
              (fill e (source_of cs) (after_filter e (new_inspect_reader (source_of cs) f) p).0))
  unfolding read fill filter_read is_empty
  read-filter cs f c s p h =
      ap
        (λ p. copied e n (
          after_read e (after_filter e (new_inspect_reader (source_of cs) f) p) more
            (fill e (source_of cs) (after_filter e (new_inspect_reader (source_of cs) f) p).0)))
        h

  by_answer :
      (cs : List Bytes) (f : F) (c : ℕ) (s : Bytes) (g : F) (a : Answer)
      → e.process_chunk f (c ∷ s) ≡ (g, a)
      → 0 < n
      → Gives (new_inspect_reader (source_of cs) g) (deliver e g cs)
      → Gives
          (new_inspect_reader (source_of ((c ∷ s) ∷ cs)) f)
          (answered a λ out. after_output out (deliver e g cs))
  unfolding read
  by_answer cs f c s g refused h p next = ([], Ends-error _ _ (read-filter cs f c s _ h))
  by_answer cs f c s g (stopped out) h p next =
      let r = record (new_inspect_reader (source_of cs) g) { blocked = true } in
      Ends-same _ (record r { out = out }) out eof (read-filter cs f c s _ h)
        (Ends-last (source_of cs) r out p (Ends-eof _ _ (read-blocked (source_of cs) r)))
  by_answer cs f c s g (passed out) h p next =
      let r = new_inspect_reader (source_of cs) g in
      Gives-same _ (record r { out = out }) (after_output out (deliver e g cs))
        (read-filter cs f c s _ h) (Gives-holding (source_of cs) r out (deliver e g cs) p next)

  deliver_unfolded :
      (f : F) (c : Bytes) (cs : List Bytes)
      → deliver e f (c ∷ cs)
        ≡ answered
            (e.process_chunk f c).1
            λ out. after_output out (deliver e (e.process_chunk f c).0 cs)
  unfolding deliver
  deliver_unfolded f c cs = refl

  -- Let a source give chunks that are not empty, and then its end. Reads into a buffer that is not empty
  -- come to an end after finitely many: where the filter passes or blocks the response, they give the
  -- bytes that it puts out, tail and all, and then `io.EOF`; where it fails, they end with the error.
  pub read_times-Gives :
      (cs : List Bytes) (f : F)
      → All (λ c. c ≢ []) cs
      → 0 < n
      → Gives (new_inspect_reader (source_of cs) f) (deliver e f cs)
  read_times-Gives [] f full p = unfold deliver in by_flush f (e.flush f) refl p
  read_times-Gives ([] ∷ cs) f full p = absurd (full.0 refl)
  read_times-Gives ((c ∷ s) ∷ cs) f full p =
      subst (Gives (new_inspect_reader (source_of ((c ∷ s) ∷ cs)) f))
        (sym (deliver_unfolded f (c ∷ s) cs))
        (by_answer cs f c s (e.process_chunk f (c ∷ s)).0 (e.process_chunk f (c ∷ s)).1 refl p
          (read_times-Gives cs (e.process_chunk f (c ∷ s)).0 full.1 p))
