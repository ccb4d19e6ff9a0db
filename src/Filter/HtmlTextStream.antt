-- ===== src/Filter/HtmlTextStream.antt =====
-- The text filter on a page that comes in chunks.
use lucid_gate.Prelude.{
  ℕ, suc, ◌≡◌, List, [], ◌∷◌, ◌++◌, Bytes, length, take, arith, refl, sym, subst, ap, ◌∙◌,
  append_assoc, length-append,
}
use lucid_gate.Filter.InjectionStream.{concat}
use lucid_gate.Filter.Chain.{
  Answer, refused, passed, stopped, FilterEngine, after_output, answered, deliver,
}
use lucid_gate.Filter.HtmlText.{HtmlTextState, show_byte, after_byte, process_bytes, html_engine}

after_output-twice :
    (s t : Bytes) (a : Answer) → after_output s (after_output t a) ≡ after_output (s ++ t) a
after_output-twice s t refused = refl
after_output-twice s t (passed x) = ap (λ r. passed r) (sym (append_assoc s t x))
after_output-twice s t (stopped x) = ap (λ r. stopped r) (sym (append_assoc s t x))

after_output-nil : (a : Answer) → after_output [] a ≡ a
after_output-nil refused = refl
after_output-nil (passed x) = refl
after_output-nil (stopped x) = refl

-- The first bytes of a page and one more.
take_one_more : (pre s : Bytes) (b : ℕ) → take (suc (length pre)) (pre ++ b ∷ s) ≡ pre ++ b ∷ []
take_one_more [] s b = refl
take_one_more (c ∷ pre) s b = ap (λ r. c ∷ r) (take_one_more pre s b)

-- All of a page, or its front if it is blocked.
abbrev pub IsFront : Bytes → Answer → Type 0
IsFront page refused = Unit
IsFront page (passed out) = out ≡ page
IsFront page (stopped out) = (rest : Bytes) × (out ++ rest ≡ page)

module _ {F : Type 0} (e : FilterEngine F) where
  abbrev State : Type 0
  State = HtmlTextState × F

  -- A byte in front of what becomes of the rest of the page.
  abbrev with_byte : ℕ → State × Answer → State × Answer → State × Answer
  with_byte b (st, refused) rest = (st, refused)
  with_byte b (st, stopped out) rest = (st, stopped (b ∷ []))
  with_byte b (st, passed out) (next, a) = (next, after_output (b ∷ []) a)

  -- The page byte by byte.
  scan : State → Bytes → State × Answer
  scan st [] = (st, passed [])
  scan st (b ∷ s) = with_byte b (show_byte e st b) (scan (show_byte e st b).0 s)

  after_byte-with_byte :
      (input pre s : Bytes) (b i : ℕ) (r rest : State × Answer)
      → input ≡ pre ++ b ∷ s
      → i ≡ length pre
      → after_byte e input i r (rest.0, after_output (pre ++ b ∷ []) rest.1)
        ≡ ((with_byte b r rest).0, after_output pre (with_byte b r rest).1)
  after_byte-with_byte input pre s b i (st, refused) rest h k = refl
  after_byte-with_byte input pre s b i (st, stopped out) rest h k =
      ap (λ x. (st, stopped x))
        (ap (λ n. take (suc n) input) k
          ∙ ap (λ x. take (suc (length pre)) x) h
          ∙ take_one_more pre s b)
  after_byte-with_byte input pre s b i (st, passed out) (next, a) h k =
      ap (λ x. (next, x)) (sym (after_output-twice pre (b ∷ []) a))

  process_bytes-scan :
      (input pre s : Bytes) (st : State) (i : ℕ)
      → input ≡ pre ++ s
      → i ≡ length pre
      → process_bytes e input st s i ≡ ((scan st s).0, after_output pre (scan st s).1)
  unfolding process_bytes scan
  process_bytes-scan input pre [] st i h k = ap (λ x. (st, passed x)) h
  process_bytes-scan input pre (b ∷ s) st i h k =
      ap (λ r. after_byte e input i (show_byte e st b) r)
        (process_bytes-scan input (pre ++ b ∷ []) s (show_byte e st b).0 (suc i)
          (h ∙ sym (append_assoc pre (b ∷ []) s)) (omega (arith, length-append pre (b ∷ []))))
      ∙ after_byte-with_byte input pre s b i (show_byte e st b) (scan (show_byte e st b).0 s) h k

  process_chunk-scan : (st : State) (c : Bytes) → process_bytes e c st c 0 ≡ scan st c
  process_chunk-scan st c =
      process_bytes-scan c [] c st 0 refl refl
      ∙ ap (λ a. ((scan st c).0, a)) (after_output-nil (scan st c).1)

  -- A page in two parts.
  abbrev joined : State × Answer → (State → State × Answer) → State × Answer
  joined (st, refused) next = (st, refused)
  joined (st, stopped out) next = (st, stopped out)
  joined (st, passed out) next = ((next st).0, after_output out (next st).1)

  with_byte-joined :
      (b : ℕ) (r x : State × Answer) (next : State → State × Answer)
      → with_byte b r (joined x next) ≡ joined (with_byte b r x) next
  with_byte-joined b (st, refused) x next = refl
  with_byte-joined b (st, stopped out) x next = refl
  with_byte-joined b (st, passed out) (mid, refused) next = refl
  with_byte-joined b (st, passed out) (mid, stopped s) next = refl
  with_byte-joined b (st, passed out) (mid, passed s) next =
      ap (λ a. ((next mid).0, a)) (after_output-twice (b ∷ []) s (next mid).1)

  scan-append :
      (c s : Bytes) (st : State) → scan st (c ++ s) ≡ joined (scan st c) (λ mid. scan mid s)
  unfolding scan
  scan-append [] s st = ap (λ a. ((scan st s).0, a)) (sym (after_output-nil (scan st s).1))
  scan-append (b ∷ c) s st =
      ap (λ r. with_byte b (show_byte e st b) r) (scan-append c s (show_byte e st b).0)
      ∙ with_byte-joined b (show_byte e st b) (scan (show_byte e st b).0 c) (λ mid. scan mid s)

  answered-joined :
      (x : State × Answer) (next : State → State × Answer)
      → answered x.1 (λ out. after_output out (next x.0).1) ≡ (joined x next).1
  answered-joined (st, refused) next = refl
  answered-joined (st, stopped out) next = refl
  answered-joined (st, passed out) next = refl

  deliver-scan :
      (cs : List Bytes) (st : State) → deliver (html_engine e) st cs ≡ (scan st (concat cs)).1
  unfolding deliver
  deliver-scan [] st = unfold scan in refl
  deliver-scan (c ∷ cs) st =
      ap (λ r. answered r.1 λ out. after_output out (deliver (html_engine e) r.0 cs))
        (process_chunk-scan st c)
      ∙ ap (λ a. answered (scan st c).1 λ out. after_output out a) (deliver-scan cs (scan st c).0)
      ∙ answered-joined (scan st c) (λ mid. scan mid (concat cs))
      ∙ ap (λ r. r.1) (sym (scan-append c (concat cs) st))

  with_byte-IsFront :
      (b : ℕ) (s : Bytes) (r x : State × Answer)
      → IsFront s x.1
      → IsFront (b ∷ s) (with_byte b r x).1
  with_byte-IsFront b s (st, refused) x h = tt
  with_byte-IsFront b s (st, stopped out) x h = (s, refl)
  with_byte-IsFront b s (st, passed out) (mid, refused) h = tt
  with_byte-IsFront b s (st, passed out) (mid, passed t) h = ap (λ r. b ∷ r) h
  with_byte-IsFront b s (st, passed out) (mid, stopped t) (rest, h) = (rest, ap (λ r. b ∷ r) h)

  scan-IsFront : (s : Bytes) (st : State) → IsFront s (scan st s).1
  unfolding scan
  scan-IsFront [] st = refl
  scan-IsFront (b ∷ s) st =
      with_byte-IsFront b s (show_byte e st b) (scan (show_byte e st b).0 s)
        (scan-IsFront s (show_byte e st b).0)

  -- Whatever filter is under it, and however a page is cut into chunks, the text filter answers what it
  -- answers for the whole page at once; it puts out the page as it is, or the front of it if the page is
  -- blocked, unless there is an error.
  pub deliver-html_engine :
      (st : HtmlTextState × F) (cs : List Bytes)
      → (deliver (html_engine e) st cs ≡ (process_bytes e (concat cs) st (concat cs) 0).1)
        × IsFront (concat cs) (deliver (html_engine e) st cs)
  deliver-html_engine st cs = (
    deliver-scan cs st ∙ sym (ap (λ r. r.1) (process_chunk-scan st (concat cs))),
    subst (IsFront (concat cs)) (sym (deliver-scan cs st)) (scan-IsFront (concat cs) st),
  )
