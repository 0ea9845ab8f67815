-- ===== src/Lex/Tiling/Literals.antt =====
-- String and code literals end where their tokens say, and only the display's end leaves one open.
use dr_lojekyll.Prelude.{
  ℕ, zero, suc, ◌≤◌, ◌≡◌, refl, ap, subst, ◌∙◌, ◌⊎◌, Bool, true, false, ◌||◌, none, some, List, [],
  ◌∷◌, ◌++◌, length, length-append, arith, if◌then◌else◌, ◌==◌, Bool-cases, Option-cases, inl, inr,
}
use dr_lojekyll.Display.Reader.{Reader, try_read_char}
use dr_lojekyll.Display.Reads.{
  num_breaks, IsPlaced, Reads, ReadsOne, Reads-trans, Reads-nil, try_read_char-cases,
  ReadsOne-length,
}
use dr_lojekyll.Lex.Lexeme.{Lexeme}
use dr_lojekyll.Lex.Token.{to_16, Shape, shape, lexeme_of, spelling_width, next_disp}
use dr_lojekyll.Lex.StringPool.{StringPool}
use dr_lojekyll.Lex.Words.{pick, escapes}
use dr_lojekyll.Lex.Branches.{next_of}
use dr_lojekyll.Lex.Literals.{
  Error, error_repr, StringScan, start_scan, fail_with, push_char, string_error, escaped_char,
  string_char, take_char, scan_string, lex_string_end, lex_string,
}
use dr_lojekyll.Lex.Tiling.{
  Tiles, flat-Tiles, measured-Tiles, Reads-cons, breaks-cons, breaks-append,
}
use dr_lojekyll.Lex.Tiling.Branches.{AllSome}

abbrev IsMeasured : Error → Type 0
IsMeasured e = shape e.lexeme ≡ Shape.measured

-- What the character `c` does to a scan, besides the collected text.
record CharKept (c : ℕ) (s s' : StringScan) : Type 0 where
  reader : s'.reader ≡ s.reader
  width : s'.width ≡ s.width
  error : s'.error ≡ none → (s.error ≡ none) × ((c == b'\n') ≡ false)
  measured : AllSome IsMeasured s.error → AllSome IsMeasured s'.error

fail_with-CharKept :
    (c : ℕ) (e : Error) (s : StringScan) → IsMeasured e → CharKept c s (fail_with e s)
unfolding fail_with
fail_with-CharKept c e s m = elim (Option-cases s.error) [
  | inl n ↦ record {
    reader = refl;
    width = refl;
    error = λ h. absurd (cc (rw n at h));
    measured = λ a. rw n m;
  }
  | inr (first, n) ↦ record {
    reader = refl;
    width = refl;
    error = λ h. absurd (cc (rw n at h));
    measured = λ a. rw n (subst (AllSome IsMeasured) n a);
  }
]

push_char-CharKept :
    (c d : ℕ) (s : StringScan) → (c == b'\n') ≡ false → CharKept c s (push_char d s)
unfolding push_char
push_char-CharKept c d s f = record {
  reader = refl;
  width = refl;
  error = λ h. (h, f);
  measured = λ a. a;
}

same-CharKept :
    (c : ℕ) (escape finished : Bool) (s : StringScan)
    → (c == b'\n') ≡ false
    → CharKept c s (record s { prev_was_escape = escape; is_finished = finished })
same-CharKept c escape finished s f = record {
  reader = refl;
  width = refl;
  error = λ h. (h, f);
  measured = λ a. a;
}

escaped_char-CharKept :
    (r : Reader) (c : ℕ) (s : StringScan) → (c == b'\n') ≡ false → CharKept c s (escaped_char r c s)
unfolding escaped_char string_error shape
escaped_char-CharKept r c s f = elim (Option-cases (pick c escapes)) [
  | inl e ↦
      rw (e, escaped_char)
        (fail_with-CharKept c (string_error r Lexeme.invalid_escape_in_string s) s refl)
  | inr (d, e) ↦ rw (e, escaped_char) (push_char-CharKept c d s f)
]

break-false : (c : ℕ) (b : Bool) → ((c == b'\n') || b) ≡ false → (c == b'\n') ≡ false
break-false c b h = elim (Bool-cases (c == b'\n')) [ inl t ↦ absurd (cc (rw t at h)) | inr f ↦ f ]

unescaped-CharKept :
    (c : ℕ) (s s' : StringScan)
    → CharKept c (record s { prev_was_escape = false }) s'
    → CharKept c s s'
unescaped-CharKept c s s' k = record {
  reader = k.reader;
  width = k.width;
  error = k.error;
  measured = k.measured;
}

if-CharKept :
    (c : ℕ) (s x y : StringScan) (b : Bool)
    → CharKept c s x
    → CharKept c s y
    → CharKept c s (if b then x else y)
if-CharKept c s x y true h k = h
if-CharKept c s x y false h k = k

string_char-CharKept : (r : Reader) (c : ℕ) (s : StringScan) → CharKept c s (string_char r c s)
unfolding string_char string_error shape
string_char-CharKept r c s = elim (Bool-cases ((c == b'\n') || (c == b'\r'))) [
  | inl t ↦
      rw (t, string_char)
        (fail_with-CharKept c (string_error r Lexeme.invalid_new_line_in_string s) s refl)
  | inr f ↦
      let k = break-false c (c == b'\r') f in
      rw (f, string_char)
        (if-CharKept c s _ _ (c == b'\\')
          (if-CharKept c s _ _ s.prev_was_escape
            (unescaped-CharKept c s _
              (push_char-CharKept c b'\\' (record s { prev_was_escape = false }) k))
            (same-CharKept c true s.is_finished s k))
          (if-CharKept c s _ _ s.prev_was_escape
            (unescaped-CharKept c s _
              (escaped_char-CharKept r c (record s { prev_was_escape = false }) k))
            (if-CharKept c s _ _ (c == b'"') (same-CharKept c s.prev_was_escape true s k)
              (push_char-CharKept c c s k))))
]

-- What a scan has read, behind the opening quote.
record Scanned (r0 : Reader) (s : StringScan) : Type 0 where
  chars : List ℕ
  reads : Reads r0 chars s.reader
  width : s.width ≡ suc (length chars)
  breaks : s.error ≡ none → num_breaks chars ≡ 0
  measured : AllSome IsMeasured s.error

breaks_one : (c : ℕ) → (c == b'\n') ≡ false → num_breaks (c ∷ []) ≡ 0
unfolding num_breaks
breaks_one c f = rw f refl

Scanned-CharKept :
    (r0 r' : Reader) (c : ℕ) (s s' : StringScan)
    → Scanned r0 s
    → ReadsOne s.reader c r'
    → CharKept c (take_char c r' s) s'
    → Scanned r0 s'
unfolding take_char
Scanned-CharKept r0 r' c s s' h one k = record {
  chars = h.chars ++ c ∷ [];
  reads = rw k.reader (Reads-trans r0 s.reader r' h.chars (c ∷ []) h.reads one.reads);
  width =
      let a = length-append h.chars (c ∷ []) in let b = h.width in let d = k.width in omega arith;
  breaks = λ e.
      let f = k.error e in
      let a = h.breaks f.0 in
      let b = breaks_one c f.1 in breaks-append h.chars (c ∷ []) ∙ omega arith;
  measured = k.measured h.measured;
}

-- A scan ends behind the closing quote, or at the end of the display.
record Scans (r0 : Reader) (s : StringScan) : Type 0 where
  scanned : Scanned r0 s
  ends : (s.is_finished ≡ true) ⊎ (s.reader.rest ≡ [])

scan_end :
    (fuel : ℕ) (r : Reader) (s : StringScan)
    → try_read_char s.reader ≡ none
    → scan_string fuel r s ≡ s
unfolding scan_string
scan_end zero r s e = refl
scan_end (suc fuel) r s e = rw (e, scan_string) refl

scan_some :
    (fuel : ℕ) (r : Reader) (s : StringScan) {c : ℕ} {r' : Reader}
    → try_read_char s.reader ≡ some (c, r')
    → scan_string (suc fuel) r s ≡ (
        if (string_char r c (take_char c r' s)).is_finished
        then string_char r c (take_char c r' s)
        else scan_string fuel r (string_char r c (take_char c r' s)))
unfolding scan_string
scan_some fuel r s e = rw (e, scan_string) refl

if-Scans :
    (r0 : Reader) (b : Bool) (s t : StringScan)
    → (b ≡ true → Scans r0 s)
    → (b ≡ false → Scans r0 t)
    → Scans r0 (if b then s else t)
if-Scans r0 true s t h k = h refl
if-Scans r0 false s t h k = k refl

scan_string-Scans :
    (fuel : ℕ) (r r0 : Reader) (s : StringScan)
    → Scanned r0 s
    → length s.reader.rest ≤ fuel
    → Scans r0 (scan_string fuel r s)
unfolding take_char
scan_string-Scans zero r r0 s h l = elim (try_read_char-cases s.reader h.reads.placed) [
  | inl (e, f) ↦ rw (scan_end zero r s f) (record { scanned = h; ends = inr e })
  | inr (c, r', one) ↦ let e = ReadsOne-length c s.reader r' one in absurd (omega arith)
]
scan_string-Scans (suc fuel) r r0 s h l = elim (try_read_char-cases s.reader h.reads.placed) [
  | inl (e, f) ↦ rw (scan_end (suc fuel) r s f) (record { scanned = h; ends = inr e })
  | inr (c, r', one) ↦
      let k = string_char-CharKept r c (take_char c r' s) in
      let h' = Scanned-CharKept r0 r' c s (string_char r c (take_char c r' s)) h one k in
      let e = ReadsOne-length c s.reader r' one in
      rw (scan_some fuel r s one.run) (
        if-Scans r0 _ _ _ (λ t. record { scanned = h'; ends = inl t })
          (λ f.
            scan_string-Scans fuel r r0 (string_char r c (take_char c r' s)) h'
              (rw k.reader (omega arith))))
]

-- Where a string literal with the opening quote `c` ends.
module _ (r : Reader) (c : ℕ) (r' : Reader) (p : IsPlaced r) (one : ReadsOne r c r')
    (pool : StringPool) where
  start_scan-Scanned : Scanned r' (start_scan c r')
  unfolding num_breaks
  start_scan-Scanned = record {
    chars = [];
    reads = Reads-nil r' one.reads.placed;
    width = refl;
    breaks = λ e. refl;
    measured = tt;
  }

  error_repr-Tiles :
      (e : Error) (cs : List ℕ) (r'' : Reader)
      → IsMeasured e
      → Reads r' cs r''
      → Tiles r c (error_repr r e r'') r''
  unfolding error_repr next_of lexeme_of next_disp
  error_repr-Tiles e cs r'' m d =
      measured-Tiles r r'' (error_repr r e r'') c cs p (Reads-cons r r' r'' c cs one d) m refl

  lex_string_end-Tiles :
      (s : StringScan)
      → (c == b'\n') ≡ false
      → Scanned r' s
      → Tiles r c (lex_string_end pool r s).repr (lex_string_end pool r s).reader
  unfolding lex_string_end string_error shape lexeme_of spelling_width
  lex_string_end-Tiles s f h = elim (Option-cases s.error) [
    | inr (e, k) ↦
        rw (k, lex_string_end)
          (error_repr-Tiles e h.chars s.reader (subst (AllSome IsMeasured) k h.measured) h.reads)
    | inl k ↦ elim (Bool-cases s.is_finished) [
      | inr g ↦
          rw (k, g, lex_string_end)
            (error_repr-Tiles (string_error r Lexeme.invalid_unterminated_string s) h.chars s.reader
              refl h.reads)
      | inl g ↦
          rw (k, g, lex_string_end)
            (flat-Tiles r s.reader _ c h.chars p (Reads-cons r r' s.reader c h.chars one h.reads)
              (breaks-cons c h.chars f (h.breaks k)) refl (ap to_16 h.width))
    ]
  ]

  pub lex_string-Tiles :
      (c == b'\n') ≡ false → Tiles r c (lex_string pool r c r').repr (lex_string pool r c r').reader
  unfolding lex_string
  lex_string-Tiles f =
      lex_string_end-Tiles (scan_string (length r'.rest) r (start_scan c r')) f
        (scan_string-Scans (length r'.rest) r r' (start_scan c r') start_scan-Scanned
          (omega arith)).scanned
